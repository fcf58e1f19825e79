-- ===== src/Tests.antt =====
-- Runs of the definitions on a sample workflow, and the theorems at inputs where they apply.
mod Sample
mod Webhook
mod Compiler
mod Trigger
mod Hash
mod A2a
mod AgentSample
mod Agent
