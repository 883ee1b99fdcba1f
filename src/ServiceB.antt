-- ===== src/ServiceB.antt =====
-- services/service-b: the key-value store and its endpoints.
pub mod Storage
pub mod Main
