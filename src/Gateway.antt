-- ===== src/Gateway.antt =====
-- services/api-gateway: the settings, the proxy to service-a, and the health of the fleet.
pub mod Config
pub mod Proxy
pub mod Health
