-- ===== src/Shared.antt =====
-- shared/: what every Python service imports.
pub mod Env
pub mod Metrics
pub mod App
pub mod Retry
pub mod Models
pub mod Logging
pub mod Timed
