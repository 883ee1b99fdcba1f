-- ===== src/ServiceA/Config.antt =====
-- services/service-a/app/config.py
use cloud_microservices.Prelude.{String, ℤ, pos}
use cloud_microservices.Shared.Env.{Env, env_int, env_str}

pub record Settings : Type 0 where
  pub service_name : String
  pub service_port : ℤ
  pub service_b_url : String
  pub cpp_worker_url : String
  pub fanout_concurrency : ℤ
  pub queue_workers : ℤ
  pub threadpool_workers : ℤ

unfoldable pub load_settings : Env → Settings
load_settings env = record {
  service_name = env_str env "SERVICE_NAME" "service-a";
  service_port = env_int env "SERVICE_PORT" (pos 8001);
  service_b_url = env_str env "SERVICE_B_URL" "http://service-b:8002";
  cpp_worker_url = env_str env "CPP_WORKER_URL" "http://cpp-worker:8003";
  fanout_concurrency = env_int env "FANOUT_CONCURRENCY" (pos 16);
  queue_workers = env_int env "QUEUE_WORKERS" (pos 4);
  threadpool_workers = env_int env "THREADPOOL_WORKERS" (pos 4);
}
