-- ===== src/Expression.antt =====
-- The `{{...}}` expressions of the workflow language: the regular expressions expressionPattern of
-- operator/internal/webhook/v1alpha1/agentworkflow_webhook.go and expressionRe of
-- operator/internal/controller/agentworkflow_compiler.go, and the references that they hold.
mod Scan
unfoldable pub use Scan.*
pub mod Pieces
pub mod Reference
