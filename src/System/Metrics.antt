-- ===== src/System/Metrics.antt =====
-- monitoring/metrics_collector.py over the services of shared/fastapi_app.py: what a snapshot
-- shows of the requests that a service has served.
use cloud_microservices.Prelude.{
  ◌+◌, String, ◌≡◌, refl, subst, ap, ◌∙◌, ◌⊎◌, inl, inr, true, some, List, [], ◌∷◌, arith, ℤ,
  length, Result, ok, err, All,
}
use cloud_microservices.Prelude.Dict
use cloud_microservices.Floats.{Floats}
use cloud_microservices.Http.{Exchange, answered, failed, Httpx, checked}
use cloud_microservices.Shared.Env.{Env}
use cloud_microservices.Shared.Logging.{Logger}
use cloud_microservices.Shared.Models.{ServiceMetrics}
use cloud_microservices.Shared.Metrics
use cloud_microservices.Shared.Metrics.{new_metrics, record_request}
use cloud_microservices.Shared.App.{
  Reply, responded, ServiceApp, AppError, create_service_app, metrics, middleware,
}
use cloud_microservices.Shared.App.Counters.{Served, serve, failures, serve_counts, serve_service}
use cloud_microservices.Orchestration.Targets.{ServiceTarget, url}
use cloud_microservices.Monitoring.MetricsCollector.{
  Payload, scraped, metrics_url, scrape_one, scrape_all,
}
use cloud_microservices.Monitoring.MetricsCollector.Scrapes.{
  AreDistinct, IsShown, scrape_all-IsShown,
}
use cloud_microservices.Monitoring.MetricsCollector.Urls.{metrics_url-url}

-- The JSON of a service's bodies, and a body as it is sent.
pub record MetricsBodies (F J : Type 0) : Type 0 where
  pub dump : ServiceMetrics F → J
  pub internal_error : J
  pub text : J → String

abbrev pub IsAmong : ServiceTarget → List ServiceTarget → Type 0
IsAmong t [] = ⊥
IsAmong t (u ∷ us) = (u ≡ t) ⊎ IsAmong t us

All-IsAmong :
    (P : ServiceTarget → Type 0) (t : ServiceTarget) (ts : List ServiceTarget)
    → All P ts
    → IsAmong t ts
    → P t
All-IsAmong P t [] h m = absurd m
All-IsAmong P t (u ∷ us) h (inl same) = subst P same h.0
All-IsAmong P t (u ∷ us) h (inr later) = All-IsAmong P t us h.1 later

module _ (fl : Floats) {J : Type 0} (bodies : MetricsBodies fl.Float J) where
  open fl use {Float}

  abbrev received : Result AppError (Reply J) → Exchange J
  received (ok r) =
      answered
        (record { status_code = r.status_code; text = bodies.text r.body; json = some r.body })
  received (err e) = failed "Internal Server Error"

  -- `GET /metrics` behind the middleware of its service, which counts it once it is answered
  unfoldable pub call_metrics : Float → Float → ServiceApp Float → Exchange J × ServiceApp Float
  call_metrics now ms app =
      let (result, app') =
        middleware fl bodies.internal_error (record { path = "/metrics"; method = "GET" })
          (responded (record { status_code = 200; body = bodies.dump (metrics fl now app) })) ms
          app in
      (received result, app')

  created-counts :
      {L : Type 0} (log_text : String → L) (env : Env) (name : String) (started : Float)
      (app : ServiceApp Float) (logger : Logger L)
      → create_service_app fl log_text env name started ≡ ok (app, logger)
      → (app.metrics.service ≡ name)
        × (app.metrics.request_count ≡ 0)
        × (app.metrics.error_count ≡ 0)
  unfolding create_service_app new_metrics
  created-counts log_text env name started app logger h = ground arith

  call_metrics-answered :
      (now ms : Float) (app : ServiceApp Float)
      → (call_metrics now ms app).0
        ≡ answered (record {
          status_code = 200;
          text = bodies.text (bodies.dump (metrics fl now app));
          json = some (bodies.dump (metrics fl now app));
        })
  unfolding call_metrics middleware
  call_metrics-answered now ms app = refl

  call_metrics-counts :
      (now ms : Float) (app : ServiceApp Float)
      → (call_metrics now ms app).1.metrics.request_count ≡ app.metrics.request_count + 1
  unfolding call_metrics middleware record_request
  call_metrics-counts now ms app = refl

  scrape_one-call_metrics :
      (hx : Httpx) (get : String → Exchange J) (t : ServiceTarget) (now ms : Float)
      (app : ServiceApp Float)
      → hx.is_success 200 ≡ true
      → get (metrics_url t) ≡ (call_metrics now ms app).0
      → scrape_one hx get t ≡ ok (t.name, scraped (bodies.dump (metrics fl now app)))
  unfolding scrape_one checked
  scrape_one-call_metrics hx get t now ms app success reached =
      ground (arith, reached ∙ call_metrics-answered now ms app, success)

  -- A snapshot of the collector shows under the name of a service what the service has counted by
  -- then, if the service has been reached on the port of the target: every request that it has
  -- served since it was created, however it ended, as an error exactly when its status was 500 or
  -- more or its route raised. The request of the scrape itself counts for the next one.
  pub scrape-counts :
      (hx : Httpx) (get : String → Exchange J) (targets : List ServiceTarget) {L : Type 0}
      (log_text : String → L) (env : Env) (logger : Logger L) (services : Dict.Dict (Payload J))
      (t : ServiceTarget) (port : ℤ) (name : String) (started now ms : Float)
      (app : ServiceApp Float) (ss : List (Served Float J))
      → hx.is_success 200 ≡ true
      → AreDistinct hx get targets
      → IsAmong t targets
      → t.health_url ≡ url port "/health"
      → create_service_app fl log_text env name started ≡ ok (app, logger)
      → get (url port "/metrics") ≡ (call_metrics now ms (serve fl bodies.internal_error ss app)).0
      → scrape_all hx targets get ≡ ok services
      → (m : ServiceMetrics Float) × (Dict.get t.name services ≡ some (scraped (bodies.dump m)))
        × (m.service ≡ name)
        × (m.request_count ≡ length ss)
        × (m.error_count ≡ failures fl bodies.internal_error ss)
        × ((call_metrics now ms (serve fl bodies.internal_error ss app)).1.metrics.request_count
            ≡ length ss + 1)
  unfolding metrics Metrics.snapshot
  scrape-counts hx get targets log_text env logger services t port name started now ms app ss
        success distinct among at created reached h =
      let served = serve fl bodies.internal_error ss app in
      let (p, one, there) =
        All-IsAmong (IsShown hx get services) t targets
          (scrape_all-IsShown hx get targets services distinct h) among in
      let scrape =
        scrape_one-call_metrics hx get t now ms served success
          (ap get (metrics_url-url t port at) ∙ reached) in
      let (service, none_yet, no_error) =
        created-counts log_text env name started app logger created in
      let (requests, errors, _) = serve_counts fl bodies.internal_error ss app in
      (
        metrics fl now served,
        there ∙ ground (arith, one, scrape),
        serve_service fl bodies.internal_error ss app ∙ service,
        omega (arith, requests, none_yet),
        omega (arith, errors, no_error),
        omega (arith, requests, none_yet, call_metrics-counts now ms served),
      )
