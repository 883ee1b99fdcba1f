-- ===== src/ServiceA/Info.antt =====
-- services/service-a/app/main.py: `GET /info`, the settings that are shown.
use cloud_microservices.Prelude.{String, ◌≡◌, some, ℤ, pos, str_ℤ}
use cloud_microservices.Shared.Env.{Env}
use cloud_microservices.Shared.Env.Decimals.{env_int-str_ℤ}
use cloud_microservices.ServiceA.Config.{Settings, load_settings}

pub record Info : Type 0 where
  pub service_name : String
  pub service_b_url : String
  pub cpp_worker_url : String
  pub fanout_concurrency : ℤ
  pub queue_workers : ℤ
  pub threadpool_workers : ℤ

unfoldable pub info : Settings → Info
info settings = record {
  service_name = settings.service_name;
  service_b_url = settings.service_b_url;
  cpp_worker_url = settings.cpp_worker_url;
  fanout_concurrency = settings.fanout_concurrency;
  queue_workers = settings.queue_workers;
  threadpool_workers = settings.threadpool_workers;
}

-- The numbers that the environment sets, as Python prints them, are the numbers that are shown.
pub info-load_settings :
    (env : Env) (concurrency workers threads : ℤ)
    → env "FANOUT_CONCURRENCY" ≡ some (str_ℤ concurrency)
    → env "QUEUE_WORKERS" ≡ some (str_ℤ workers)
    → env "THREADPOOL_WORKERS" ≡ some (str_ℤ threads)
    → let shown = info (load_settings env) in
      (shown.fanout_concurrency ≡ concurrency)
      × (shown.queue_workers ≡ workers)
      × (shown.threadpool_workers ≡ threads)
unfolding info load_settings
info-load_settings env concurrency workers threads a b c = (
  env_int-str_ℤ env "FANOUT_CONCURRENCY" concurrency (pos 16) a,
  env_int-str_ℤ env "QUEUE_WORKERS" workers (pos 4) b,
  env_int-str_ℤ env "THREADPOOL_WORKERS" threads (pos 4) c,
)
