-- ===== src/Agent.antt =====
-- The compiler of agents and the domain of capabilities (operator/internal/app/agent/compiler,
-- operator/internal/domain/capability).
pub mod Capability
pub mod Conflicts
pub mod Value
pub mod Types
pub mod Providers
pub mod Secrets
pub mod Errors
pub mod Merge
pub mod Tools
pub mod Attachments
pub mod References
pub mod Compile
pub mod Settings
