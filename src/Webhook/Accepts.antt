-- ===== src/Webhook/Accepts.antt =====
-- ValidateAgentWorkflow against the description of the well-formed workflows.
mod Lists
mod Tasks
mod Texts
mod Round
mod Whole
pub use Whole.*
