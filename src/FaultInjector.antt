-- ===== src/FaultInjector.antt =====
-- services/fault-injector
pub mod Injector
pub mod Main
