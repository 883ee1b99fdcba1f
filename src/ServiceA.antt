-- ===== src/ServiceA.antt =====
-- services/service-a: the data-processing worker.
pub mod Calls
pub mod FanOut
pub mod Queue
pub mod Config
pub mod Main
pub mod Info
