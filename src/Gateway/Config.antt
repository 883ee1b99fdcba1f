-- ===== src/Gateway/Config.antt =====
-- services/api-gateway/app/config.py; `load_settings` raises where the timeout is no number.
use cloud_microservices.Prelude.{String, Option, none, some, ℤ, pos}
use cloud_microservices.Floats.{Floats}
use cloud_microservices.Shared.Env.{Env, env_int, env_str}

pub record Settings (F : Type 0) : Type 0 where
  pub service_name : String
  pub service_port : ℤ
  pub service_a_url : String
  pub service_b_url : String
  pub cpp_worker_url : String
  pub request_timeout_seconds : F

unfoldable pub load_settings : (fl : Floats) → Env → Option (Settings fl.Float)
load_settings fl env = elim (fl.parse (env_str env "REQUEST_TIMEOUT_SECONDS" "10")) [
  | none ↦ none
  | some timeout ↦ some (record {
    service_name = env_str env "SERVICE_NAME" "api-gateway";
    service_port = env_int env "SERVICE_PORT" (pos 8000);
    service_a_url = env_str env "SERVICE_A_URL" "http://service-a:8001";
    service_b_url = env_str env "SERVICE_B_URL" "http://service-b:8002";
    cpp_worker_url = env_str env "CPP_WORKER_URL" "http://cpp-worker:8003";
    request_timeout_seconds = timeout;
  })
]
