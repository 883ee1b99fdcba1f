-- ===== src/ServiceA/Main.antt =====
-- services/service-a/app/main.py: the three pipelines behind `POST /process`. What `retry_async` meets
-- at its n-th fan-out, what the queue pipeline answers and what cpp-worker answers are arguments; the
-- modules `FanOut` and `Queue` say which answers there can be.
pub mod Laws
pub mod Flavours
use cloud_microservices.Prelude.{
  ℕ, String, Bool, true, false, Option, none, some, List, [], ◌∷◌, map, ◌==◌, ℤ, pos, length,
  if◌then◌else◌, Result, ok, err, ◌>>=◌,
}
use cloud_microservices.Prelude.Dict.{Dict}
use cloud_microservices.Floats.{Floats}
use cloud_microservices.Http.{Exchange, HttpError, Httpx}
use cloud_microservices.Shared.Retry.{
  RetryError, value_error, raised, assertion_error, overflow_error, retry_async,
}
use cloud_microservices.Shared.Models.{
  ProcessRequest, ProcessResponse, HandlerError, http_exception, unhandled,
}
use cloud_microservices.ServiceA.Calls.{CallError, http_error, json_error, key_error, call_result}

-- `exceptions=(httpx.HTTPError,)`
abbrev pub is_http_error : CallError → Bool
is_http_error (http_error e) = true
is_http_error json_error = false
is_http_error (key_error k) = false

module _ (fl : Floats) where
  open fl use {Float}

  -- `_aggregate`; the message of the `ValueError` is given without the operation's name
  unfoldable pub aggregate : String → List Float → Result String Float
  aggregate operation [] = ok fl.zero
  aggregate operation (x ∷ xs) =
      if operation == "sum"
      then ok (fl.sum (x ∷ xs))
      else if operation == "mean"
      then ok (fl.div (fl.sum (x ∷ xs)) (fl.of_ℕ (length (x ∷ xs))))
      else if operation == "square_sum"
      then ok (fl.sum (x ∷ xs))
      else err "unsupported operation"

  -- the `try` round the call of `retry_async`
  abbrev pub fan_out_error : RetryError CallError → HandlerError
  fan_out_error (raised (http_error e)) = http_exception 502 "service-b unreachable"
  fan_out_error (raised json_error) = unhandled "JSONDecodeError"
  fan_out_error (raised (key_error k)) = unhandled "KeyError"
  fan_out_error value_error = unhandled "ValueError"
  fan_out_error assertion_error = unhandled "AssertionError"
  fan_out_error overflow_error = unhandled "OverflowError"

  abbrev pub fanned_out :
      Result (RetryError CallError) (List Float) → Result HandlerError (List Float)
  fanned_out (ok values) = ok values
  fanned_out (err e) = err (fan_out_error e)

  -- The optional call of cpp-worker: an `HTTPError` is logged and leaves no result.
  abbrev pub cpp_outcome : Result CallError Float → Result HandlerError (Option Float)
  cpp_outcome (ok value) = ok (some value)
  cpp_outcome (err (http_error e)) = ok none
  cpp_outcome (err json_error) = err (unhandled "JSONDecodeError")
  cpp_outcome (err (key_error k)) = err (unhandled "KeyError")

  unfoldable pub cpp_result_of :
      Httpx → String → Exchange (Dict Float) → Result HandlerError (Option Float)
  cpp_result_of hx operation cpp =
      if operation == "square_sum" then cpp_outcome (call_result hx cpp) else ok none

  -- `except ValueError` of `process`, and its absence in the other two handlers
  abbrev pub or_400 : Result String Float → Result HandlerError Float
  or_400 (ok value) = ok value
  or_400 (err message) = err (http_exception 400 message)

  abbrev pub or_unhandled : Result String Float → Result HandlerError Float
  or_unhandled (ok value) = ok value
  or_unhandled (err message) = err (unhandled message)

  -- `process`
  unfoldable pub process :
      Httpx
      → ProcessRequest Float
      → (ℕ → Result CallError (List Float))
      → (ℕ → Float)
      → Exchange (Dict Float)
      → Float
      → Result HandlerError (ProcessResponse Float)
  process hx req fan_outs jitter cpp duration_ms = do
    fanout ←
        fanned_out
          (retry_async fl fan_outs (pos 3) (fl.decimal 2 1) (fl.decimal 50 1) jitter
            is_http_error).0
    cpp_result ← cpp_result_of hx req.operation cpp
    result ← or_400 (aggregate req.operation fanout)
    ok (record {
      operation = req.operation;
      result = result;
      items_processed = length req.items;
      fanout_results = fanout;
      cpp_result = cpp_result;
      duration_ms = fl.round duration_ms 2;
    })

  -- the end of `process_via_queue` and of `process_via_threadpool`
  abbrev pub respond :
      ProcessRequest Float → List Float → Float → Result HandlerError (ProcessResponse Float)
  respond req fanout duration_ms = do
    result ← or_unhandled (aggregate req.operation fanout)
    ok (record {
      operation = req.operation;
      result = result;
      items_processed = length req.items;
      fanout_results = fanout;
      cpp_result = none;
      duration_ms = fl.round duration_ms 2;
    })

  abbrev queue_error : CallError → HandlerError
  queue_error (http_error e) = unhandled "HTTPError"
  queue_error json_error = unhandled "JSONDecodeError"
  queue_error (key_error k) = unhandled "KeyError"

  -- `process_via_queue`, on the answer of the queue pipeline
  unfoldable pub process_via_queue :
      ProcessRequest Float
      → Result CallError (List Float)
      → Float
      → Result HandlerError (ProcessResponse Float)
  process_via_queue req (ok fanout) duration_ms = respond req fanout duration_ms
  process_via_queue req (err e) duration_ms = err (queue_error e)

  -- `_square_blocking`, without its sleep
  abbrev square_blocking : Float → Float
  square_blocking value = fl.mul value value

  -- `threadpool_pipeline`: `executor.map` gives the results in the order of the items
  unfoldable pub threadpool_pipeline : List Float → (Float → Float) → List Float
  threadpool_pipeline items work_fn = map work_fn items

  -- `process_via_threadpool`
  unfoldable pub process_via_threadpool :
      ProcessRequest Float → Float → Result HandlerError (ProcessResponse Float)
  unfolding threadpool_pipeline
  process_via_threadpool req duration_ms =
      respond req (threadpool_pipeline req.items square_blocking) duration_ms
