-- ===== src/Shared/App.antt =====
-- shared/fastapi_app.py: the factory of a service and the middleware that every request goes through,
-- and the context of shared/logging_config.py that it binds and clears. The route behind the
-- middleware is FastAPI's `call_next`: what it does with a request is an argument.
pub mod Counters
pub mod Traffic
use cloud_microservices.Prelude.{
  ℕ, String, Bool, true, false, Option, none, some, List, [], ◌∷◌, ◌++◌, leb, ltb, is_empty,
  if◌then◌else◌, Result, ok, err,
}
use cloud_microservices.Floats.{Floats}
use cloud_microservices.Shared.Env.{Env}
use cloud_microservices.Shared.Logging.{Logger, LoggingError, configure_logging}
use cloud_microservices.Shared.Models.{HealthStatus, ServiceMetrics}
use cloud_microservices.Shared.Metrics.{MetricsState, new_metrics, record_request, snapshot}

pub record Reply (B : Type 0) : Type 0 where
  pub status_code : ℕ
  pub body : B

-- How `call_next` ends: with a response, by an `Exception`, or by a `BaseException` that is none, such
-- as the `CancelledError` of a client that hangs up.
pub data Outcome (B : Type 0) : Type 0 where
  responded : Reply B → Outcome B
  raised : String → Outcome B
  cancelled : Outcome B

pub record Request : Type 0 where
  pub path : String
  pub method : String

pub data LogLine (F : Type 0) : Type 0 where
  unhandled_exception : Option Request → String → LogLine F
  request_completed : Option Request → ℕ → F → Bool → LogLine F

-- `context` holds the fields that `bind_request_context` binds, which every log line shows; `min_level` is the
-- level of `configure_logging`, under which the filtering logger writes nothing.
pub record ServiceApp (F : Type 0) : Type 0 where
  pub metrics : MetricsState F
  pub context : Option Request
  pub min_level : ℕ
  pub logs : List (LogLine F)

-- `logger.exception` and `logger.info`
abbrev pub severity : {F : Type 0} → LogLine F → ℕ
severity (unhandled_exception c m) = 40
severity (request_completed c n d e) = 20

-- what a call of the logger writes
abbrev pub written : {F : Type 0} → ℕ → LogLine F → List (LogLine F)
written min_level line = if ltb (severity line) min_level then [] else line ∷ []

pub data AppError : Type 0 where
  value_error unbound_local_error : AppError
  -- of `configure_logging`
  logging_error : LoggingError → AppError

module _ (fl : Floats) where
  open fl use {Float}

  -- `create_service_app`: the service and its logger
  unfoldable pub create_service_app :
      {J : Type 0}
      → (String → J)
      → Env
      → String
      → Float
      → Result AppError (ServiceApp Float × Logger J)
  create_service_app text getenv service_name now =
      if is_empty service_name
      then err value_error
      else elim (configure_logging text getenv service_name) [
        | err e ↦ err (logging_error e)
        | ok logger ↦ ok (
          record {
            metrics = new_metrics fl service_name now;
            context = none;
            min_level = logger.min_level;
            logs = [];
          },
          logger,
        )
      ]

  unfoldable pub bind_request_context : Request → ServiceApp Float → ServiceApp Float
  bind_request_context request app = record app { context = some request }

  unfoldable pub clear_request_context : ServiceApp Float → ServiceApp Float
  clear_request_context app = record app { context = none }

  log : LogLine Float → ServiceApp Float → ServiceApp Float
  log line app = record app { logs = app.logs ++ written app.min_level line }

  measure : Float → Bool → ServiceApp Float → ServiceApp Float
  measure duration_ms is_error app = record app {
    metrics = record_request fl duration_ms is_error app.metrics;
  }

  -- The `finally` block, where `response` is bound: it counts, logs and clears the context.
  finish : {B : Type 0} → Float → Bool → Reply B → ServiceApp Float → ServiceApp Float
  unfolding log measure clear_request_context
  finish duration_ms is_error response app =
      let counted = measure duration_ms is_error app in
      clear_request_context (
        log
          (request_completed counted.context response.status_code (fl.round duration_ms 2) is_error)
          counted)

  module _ {B : Type 0} (server_error : B) where
    -- `_observability_middleware` from the end of `call_next` on. Of a `BaseException` the `finally`
    -- block counts the request, and then reads `response`, which no branch has bound.
    unfoldable pub leave :
        Outcome B → Float → ServiceApp Float → Result AppError (Reply B) × ServiceApp Float
    unfolding finish
    leave (responded response) duration_ms app =
        (ok response, finish duration_ms (leb 500 response.status_code) response app)
    leave (raised message) duration_ms app =
        let response : Reply B = record { status_code = 500; body = server_error } in
        (
          ok response,
          finish duration_ms true response (log (unhandled_exception app.context message) app),
        )
    leave cancelled duration_ms app = (err unbound_local_error, measure duration_ms false app)

    -- `_observability_middleware`, of a request that no other one interrupts
    unfoldable pub middleware :
        Request
        → Outcome B
        → Float
        → ServiceApp Float
        → Result AppError (Reply B) × ServiceApp Float
    unfolding leave bind_request_context
    middleware request outcome duration_ms app =
        leave outcome duration_ms (bind_request_context request app)

  -- `GET /health`
  unfoldable pub health : ℕ → ServiceApp Float → HealthStatus
  health utcnow app = record { status = "ok"; service = app.metrics.service; timestamp = utcnow }

  -- `GET /metrics`
  unfoldable pub metrics : Float → ServiceApp Float → ServiceMetrics Float
  metrics now app =
      let snap = snapshot fl now app.metrics in
      record {
        service = snap.service;
        request_count = snap.request_count;
        error_count = snap.error_count;
        avg_latency_ms = snap.avg_latency_ms;
        uptime_seconds = snap.uptime_seconds;
        extra = [];
      }
