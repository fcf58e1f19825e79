-- ===== src/Trigger.antt =====
-- Event triggers in the server: the limiter and the handler that asks it
-- (operator/internal/server/trigger_limiter.go, operator/internal/server/trigger_handler.go), and the
-- validation of triggers (operator/internal/domain/trigger/validate.go).
pub mod Config
pub mod Spec
pub mod Limiter
pub mod Handler
