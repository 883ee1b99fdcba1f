-- ===== src/Orchestration.antt =====
-- The package orchestration: the targets, the health check, the recovery watcher, the orchestrator.
pub mod Targets
pub mod Health
pub mod Recovery
pub mod Orchestrator
