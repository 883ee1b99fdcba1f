-- ===== src/Tests/Metrics.antt =====
-- The metrics collector over a service at concrete inputs.
use cloud_microservices.Prelude.{
  ℕ, ◌+◌, String, ◌≡◌, refl, inl, inr, ◌==◌, none, some, List, [], ◌∷◌, pos, length, if◌then◌else◌,
  str_ℤ, replace,
}
use cloud_microservices.Prelude.Dict
use cloud_microservices.Prelude.Dict.{Dict}
use cloud_microservices.Http.{Exchange, checked}
use cloud_microservices.Shared.Logging.{configure_logging, level_from_env, attribute, is_upper}
use cloud_microservices.Shared.Models.{ServiceMetrics}
use cloud_microservices.Shared.Metrics
use cloud_microservices.Shared.Metrics.{new_metrics}
use cloud_microservices.Shared.App.{
  responded, raised, ServiceApp, create_service_app, metrics, middleware,
}
use cloud_microservices.Shared.App.Counters.{Served, serve, failures}
use cloud_microservices.Orchestration.Targets.{ServiceTarget, url}
use cloud_microservices.Monitoring.MetricsCollector.{
  Payload, scraped, failed, metrics_url, scrape_one, gather, dict_of, scrape_all,
}
use cloud_microservices.System.Metrics.{MetricsBodies, call_metrics, scrape-counts}
use cloud_microservices.Tests.Data.{naturals, httpx, unreachable}

data Body : Type 0 where
  metrics_body : ServiceMetrics ℕ → Body
  text_body : String → Body

abbrev bodies : MetricsBodies ℕ Body
bodies = record {
  dump = metrics_body;
  internal_error = text_body "internal error";
  text = λ b. "text";
}

abbrev target_on : String → ℕ → ServiceTarget
target_on name port = record {
  name = name;
  container = name;
  health_url = url (pos port) "/health";
}

abbrev targets : List ServiceTarget
targets = target_on "service-a" 8001 ∷ target_on "service-b" 8002 ∷ []

abbrev app : ServiceApp ℕ
app = record {
  metrics = new_metrics naturals "service-b" 0;
  context = none;
  min_level = 20;
  logs = [];
}

-- a request that is answered, and one whose route raises
abbrev served : List (Served ℕ Body)
served =
    record {
      request = record { path = "/squared"; method = "POST" };
      outcome = responded (record { status_code = 200; body = text_body "4" });
      duration_ms = 3;
    }
    ∷ record {
      request = record { path = "/squared"; method = "POST" };
      outcome = raised "OverflowError";
      duration_ms = 5;
    }
    ∷ []

-- service-a is down
abbrev get : String → Exchange Body
get u =
    if u == "http://127.0.0.1:8002/metrics"
    then (call_metrics naturals bodies 9 1 (serve naturals bodies.internal_error served app)).0
    else unreachable

abbrev shown : ServiceMetrics ℕ
shown = record {
  service = "service-b";
  request_count = 2;
  error_count = 1;
  avg_latency_ms = 4;
  uptime_seconds = 9;
  extra = [];
}

abbrev services : Dict (Payload Body)
services =
    ("service-a", failed "service-a" "error") ∷ ("service-b", scraped (metrics_body shown)) ∷ []

scrape-counts_example :
    (m : ServiceMetrics ℕ) × (Dict.get "service-b" services ≡ some (scraped (metrics_body m)))
    × (m.service ≡ "service-b")
    × (m.request_count ≡ length served)
    × (m.error_count ≡ failures naturals bodies.internal_error served)
    × ((call_metrics naturals bodies 9 1
          (serve naturals bodies.internal_error served app)).1.metrics.request_count
        ≡ length served + 1)
unfolding url str_ℤ create_service_app configure_logging level_from_env attribute is_upper
    scrape_all scrape_one gather dict_of metrics_url checked call_metrics serve middleware replace
    Dict.put metrics Metrics.snapshot Metrics.record_request new_metrics
scrape-counts_example =
    scrape-counts naturals bodies httpx get targets (λ s. s) (λ s. none)
      (record { bound = ("service", "service-b") ∷ []; min_level = 20 }) services
      (target_on "service-b" 8002) (pos 8002) "service-b" 0 9 1 app served refl
      ((refl, tt), (tt, tt)) (inr (inl refl)) refl refl refl refl
