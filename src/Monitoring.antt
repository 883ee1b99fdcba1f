-- ===== src/Monitoring.antt =====
-- The package monitoring.
pub mod LogAggregator
pub mod MetricsCollector
