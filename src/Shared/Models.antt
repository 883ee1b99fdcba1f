-- ===== src/Shared/Models.antt =====
-- shared/models.py: the payloads, and the constraints that pydantic checks before a handler runs. A rejected
-- body is answered with 422 by FastAPI. A `datetime` is its number of microseconds, and what `_utcnow` gives
-- is an argument.
use cloud_microservices.Prelude.{
  ℕ, String, Bool, ◌&&◌, Option, none, some, List, [], ◌∷◌, ℤ, pos, leb_ℤ, if◌then◌else◌,
}
use cloud_microservices.Prelude.Dict.{Dict}
use cloud_microservices.Floats.{Floats}

pub record HealthStatus : Type 0 where
  pub status : String
  pub service : String
  pub timestamp : ℕ

-- no service writes anything into `extra`
pub record ServiceMetrics (F : Type 0) : Type 0 where
  pub service : String
  pub request_count : ℕ
  pub error_count : ℕ
  pub avg_latency_ms : F
  pub uptime_seconds : F
  pub extra : Dict F

pub record ProcessRequest (F : Type 0) : Type 0 where
  pub items : List F
  pub operation : String

-- `operation` may be missing, and is then `sum`
unfoldable pub process_request : {F : Type 0} → List F → Option String → Option (ProcessRequest F)
process_request [] operation = none
process_request (x ∷ xs) none = some (record { items = x ∷ xs; operation = "sum" })
process_request (x ∷ xs) (some operation) = some (record { items = x ∷ xs; operation = operation })

pub record ProcessResponse (F : Type 0) : Type 0 where
  pub operation : String
  pub result : F
  pub items_processed : ℕ
  pub fanout_results : List F
  pub cpp_result : Option F
  pub duration_ms : F

pub record StoreRecord (F : Type 0) : Type 0 where
  pub key : String
  pub value : F

pub data FaultKind : Type 0 where
  kill latency error : FaultKind

pub record FaultRequest (F : Type 0) : Type 0 where
  pub target : String
  pub duration_ms : ℤ
  pub error_rate : F

-- `ge=0, le=60_000` and `ge=0.0, le=1.0`
unfoldable pub fault_request :
    (fl : Floats) → FaultRequest fl.Float → Option (FaultRequest fl.Float)
fault_request fl req =
    if leb_ℤ (pos 0) req.duration_ms
      && leb_ℤ req.duration_ms (pos 60000)
      && fl.leb fl.zero req.error_rate
      && fl.leb req.error_rate (fl.decimal 10 1)
    then some req
    else none

pub record FaultResponse : Type 0 where
  pub kind : FaultKind
  pub target : String
  pub accepted : Bool
  pub detail : String
  pub timestamp : ℕ

-- How a handler ends other than by returning: an `HTTPException`, which FastAPI answers, or another
-- exception, which goes up to the middleware.
pub data HandlerError : Type 0 where
  http_exception : ℕ → String → HandlerError
  unhandled : String → HandlerError
