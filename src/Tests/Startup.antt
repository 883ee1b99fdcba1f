-- ===== src/Tests/Startup.antt =====
-- The start of the services at a concrete environment.
use cloud_microservices.Prelude.{◌≡◌, true, false, ◌==◌, none, some, ok, is_ok, if◌then◌else◌}
use cloud_microservices.Floats.{Floats}
use cloud_microservices.Shared.Env.{Env}
use cloud_microservices.System.Startup.{
  start_service_a, start_gateway, start_service_b, start_fault_injector,
}
use cloud_microservices.System.Startup.Starts.{starts_in}
use cloud_microservices.Tests.Data.{naturals}

-- every text is the number 10
abbrev floats : Floats
floats = record naturals { parse = λ s. some 10 }

-- a service name that is set to nothing
abbrev unnamed : Env
unnamed name = if name == "SERVICE_NAME" then some "" else none

starts_in_example :
    (is_ok (start_service_a floats (λ s. s) unnamed 0) ≡ true)
    × (is_ok (start_gateway floats (λ s. s) unnamed 0) ≡ true)
    × (is_ok (start_service_b floats (λ s. s) unnamed 0) ≡ false)
    × (is_ok (start_fault_injector floats (λ s. s) unnamed (ok tt) 0) ≡ false)
starts_in_example = starts_in floats (λ s. s) unnamed (ok tt) 0
