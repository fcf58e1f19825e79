-- ===== src/Webhook/Cycles.antt =====
-- detectDAGCycles of operator/internal/webhook/v1alpha1/agentworkflow_webhook.go: a depth-first
-- search over the `dependsOn` edges with three colours.
mod Graph
mod Search
unfoldable pub use Graph.*
unfoldable pub use Search.*
mod Contract
mod Correct
pub mod Verdict
pub mod Dependencies
