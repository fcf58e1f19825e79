-- ===== src/Webhook.antt =====
-- The admission webhook of AgentWorkflow (operator/internal/webhook/v1alpha1/agentworkflow_webhook.go).
pub mod Errors
pub mod Freeze
pub mod Expressions
pub mod Tasks
pub mod Cycles
pub mod Validate
pub mod Conforms
pub mod Accepts
pub mod Handlers
