-- ===== src/Api.antt =====
-- The AgentWorkflow API (operator/api/v1alpha1/agentworkflow_types.go): one record for each struct.
-- A pointer is an `Option`, a slice a list, a map the list of its entries. A value of a Kubernetes
-- type that the code only copies stands as its serialised text.
pub mod Message
pub mod Task
pub mod Workflow
