-- ===== src/A2a.antt =====
-- The Argo executor plugin that calls A2A agents (operator/plugins/a2a/plugin).
pub mod Spec
pub mod Message
pub mod Endpoints
pub mod Store
pub mod Reply
pub mod Execute
pub mod Nodes
