-- ===== src/Compiler.antt =====
-- The compiler from AgentWorkflow to an Argo WorkflowTemplate
-- (operator/internal/controller/agentworkflow_compiler.go).
pub mod Argo
pub mod Json
pub mod Expressions
pub mod Plugin
pub mod Templates
pub mod Workflow
pub mod Tasks
pub mod Succeeds
pub mod Assembled
pub mod Parameters
pub mod Nodes
pub mod Shape
pub mod Closed
pub mod ConfigMaps
pub mod Switch
