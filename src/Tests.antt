-- ===== src/Tests.antt =====
-- The theorems at concrete inputs.
mod Data
mod Watcher
mod Pipelines
mod Services
mod Faults
mod Operations
mod Collectors
mod Client
mod Logs
mod Squares
mod Chaos
mod Metrics
mod Startup
