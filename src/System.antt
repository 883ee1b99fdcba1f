-- ===== src/System.antt =====
-- services/api-gateway/app/main.py in front of services/service-a/app/main.py: one request of a client
-- through both, each behind the middleware of shared/fastapi_app.py. FastAPI answers what a handler returns with 200 and its JSON, an
-- `HTTPException` with its status and a body with its detail; any other exception goes up to the middleware.
pub mod Refusals
pub mod Answers
pub mod Logs
pub mod Squares
pub mod Metrics
pub mod Startup
pub mod Chaos
use cloud_microservices.Prelude.{
  ℕ, String, Option, none, some, List, ◌==◌, if◌then◌else◌, Result, ok, err,
}
use cloud_microservices.Prelude.Dict.{Dict}
use cloud_microservices.Floats.{Floats}
use cloud_microservices.Http.{Exchange, answered, failed, Httpx}
use cloud_microservices.Shared.Models.{
  ProcessRequest, ProcessResponse, HandlerError, http_exception, unhandled,
}
use cloud_microservices.Shared.App.{
  Reply, Outcome, responded, raised, Request, ServiceApp, AppError, middleware,
}
use cloud_microservices.ServiceA.Calls.{CallError}
use cloud_microservices.ServiceA.Main.{process, process_via_queue, process_via_threadpool}
use cloud_microservices.Gateway.Config.{Settings}
use cloud_microservices.Gateway.Proxy

-- The JSON of a body: `dump` and `validate` are pydantic's, and `dump` with the rendering of Starlette, which raises
-- `ValueError` for a float that is infinite or no number;
-- `detail` is the body of an error and
-- `internal_error` that of the middleware's 500; `text` is the body as it is sent.
pub record Json (F J : Type 0) : Type 0 where
  pub dump : ProcessResponse F → Option J
  pub validate : J → Option (ProcessResponse F)
  pub detail : String → J
  pub internal_error : J
  pub text : J → String

-- what the handlers of service-a meet: service-b, cpp-worker and the clock
pub record Downstream (F : Type 0) : Type 0 where
  pub fan_outs : ℕ → Result CallError (List F)
  pub jitter : ℕ → F
  pub cpp : Exchange (Dict F)
  pub queued : Result CallError (List F)
  pub duration_ms : F

module _ {F J : Type 0} (json : Json F J) where
  -- how the route of a handler ends
  abbrev pub routed : Result HandlerError (ProcessResponse F) → Outcome J
  routed (ok response) = elim (json.dump response) [
    | none ↦ raised "Out of range float values are not JSON compliant"
    | some body ↦ responded (record { status_code = 200; body = body })
  ]
  routed (err (http_exception code detail)) =
      responded (record { status_code = code; body = json.detail detail })
  routed (err (unhandled message)) = raised message

  -- what the client of a service receives
  abbrev pub received : Result AppError (Reply J) → Exchange J
  received (ok r) =
      answered (record { status_code = r.status_code; text = json.text r.body; json = some r.body })
  received (err e) = failed "Internal Server Error"

module _ (fl : Floats) (hx : Httpx) where
  open fl use {Float}

  -- the routes `POST /process`, `/process/queue` and `/process/threadpool` of service-a
  unfoldable pub service_a :
      Downstream Float → String → ProcessRequest Float → Result HandlerError (ProcessResponse Float)
  service_a d path req =
      if path == "/process"
      then process fl hx req d.fan_outs d.jitter d.cpp d.duration_ms
      else if path == "/process/queue"
      then process_via_queue fl req d.queued d.duration_ms
      else if path == "/process/threadpool"
      then process_via_threadpool fl req d.duration_ms
      else err (http_exception 404 "Not Found")

  module _ {J : Type 0} (json : Json Float J) where
    -- one request to service-a, with its time and the service before it
    unfoldable pub call_service_a :
        Downstream Float → Float → ServiceApp Float → String → ProcessRequest Float → Exchange J
    call_service_a d ms app path req =
        received json
          (middleware fl json.internal_error (record { path = path; method = "POST" })
            (routed json (service_a d path req)) ms app).0

    -- the routes `POST /process` and `POST /process/{flavour}` of api-gateway
    unfoldable pub gateway :
        Settings Float
        → (String → ProcessRequest Float → Exchange J)
        → Option String
        → ProcessRequest Float
        → Result HandlerError (ProcessResponse Float)
    gateway settings post none req = Proxy.process hx settings json.validate post req
    gateway settings post (some flavour) req =
        Proxy.process_flavour hx settings json.validate post flavour req

    -- one request of a client to api-gateway
    unfoldable pub call_gateway :
        Settings Float
        → (String → ProcessRequest Float → Exchange J)
        → Request
        → Option String
        → ProcessRequest Float
        → Float
        → ServiceApp Float
        → Result AppError (Reply J) × ServiceApp Float
    call_gateway settings post request flavour req =
        middleware fl json.internal_error request (routed json (gateway settings post flavour req))
