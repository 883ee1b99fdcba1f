-- ===== src/System/Refusals.antt =====
-- services/service-a/app/main.py: whatever its handlers refuse, the status is at least 400.

use cloud_microservices.Prelude.{
  ◌≤◌, String, inl, inr, List, arith, ◌==◌, Result, ok, err, ◌>>=◌, Bool-cases,
}
use cloud_microservices.Prelude.Dict.{Dict}
use cloud_microservices.Floats.{Floats}
use cloud_microservices.Http.{Exchange, Httpx}
use cloud_microservices.Shared.Models.{ProcessRequest, HandlerError, http_exception, unhandled}
use cloud_microservices.Shared.App.{raised}
use cloud_microservices.Shared.Retry.{
  RetryError, value_error, raised, assertion_error, overflow_error,
}
use cloud_microservices.ServiceA.Calls.{CallError, http_error, json_error, key_error, call_result}
use cloud_microservices.ServiceA.Main.{
  process, process_via_queue, process_via_threadpool, fanned_out, cpp_outcome, cpp_result_of,
  or_400, or_unhandled, respond, aggregate,
}
use cloud_microservices.System.{Downstream, service_a}

-- a handler that refuses a request chooses a status of at least 400
abbrev pub IsRefusal : {A : Type 0} → Result HandlerError A → Type 0
IsRefusal (ok a) = Unit
IsRefusal (err (http_exception code detail)) = 400 ≤ code
IsRefusal (err (unhandled message)) = Unit

bind-IsRefusal :
    {A B : Type 0} (x : Result HandlerError A) (f : A → Result HandlerError B)
    → IsRefusal x
    → ((a : A) → IsRefusal (f a))
    → IsRefusal (x >>= f)
bind-IsRefusal (ok a) f h k = k a
bind-IsRefusal (err (http_exception code detail)) f h k = h
bind-IsRefusal (err (unhandled message)) f h k = tt

module _ (fl : Floats) (hx : Httpx) where
  open fl use {Float}

  fanned_out-IsRefusal :
      (r : Result (RetryError CallError) (List Float)) → IsRefusal (fanned_out fl r)
  fanned_out-IsRefusal (ok values) = tt
  fanned_out-IsRefusal (err (raised (http_error e))) = omega arith
  fanned_out-IsRefusal (err (raised json_error)) = tt
  fanned_out-IsRefusal (err (raised (key_error k))) = tt
  fanned_out-IsRefusal (err value_error) = tt
  fanned_out-IsRefusal (err assertion_error) = tt
  fanned_out-IsRefusal (err overflow_error) = tt

  or_400-IsRefusal : (r : Result String Float) → IsRefusal (or_400 fl r)
  or_400-IsRefusal (ok value) = tt
  or_400-IsRefusal (err message) = omega arith

  cpp_result_of-IsRefusal :
      (operation : String) (cpp : Exchange (Dict Float))
      → IsRefusal (cpp_result_of fl hx operation cpp)
  unfolding cpp_result_of
  cpp_result_of-IsRefusal operation cpp = elim (Bool-cases (operation == "square_sum")) [
    | inl asked ↦ rw asked (cpp_outcome-IsRefusal (call_result hx cpp))
    | inr other ↦ rw other tt
  ]
    where
      cpp_outcome-IsRefusal : (r : Result CallError Float) → IsRefusal (cpp_outcome fl r)
      cpp_outcome-IsRefusal (ok value) = tt
      cpp_outcome-IsRefusal (err (http_error e)) = tt
      cpp_outcome-IsRefusal (err json_error) = tt
      cpp_outcome-IsRefusal (err (key_error k)) = tt

  process-IsRefusal :
      (req : ProcessRequest Float) (d : Downstream Float)
      → IsRefusal (process fl hx req d.fan_outs d.jitter d.cpp d.duration_ms)
  unfolding process
  process-IsRefusal req d = bind-IsRefusal _ _ (fanned_out-IsRefusal _) (λ fanout.
      bind-IsRefusal _ _ (cpp_result_of-IsRefusal req.operation d.cpp) (λ cpp_result.
        bind-IsRefusal _ _ (or_400-IsRefusal (aggregate fl req.operation fanout)) (λ result. tt)))

  respond-IsRefusal :
      (req : ProcessRequest Float) (fanout : List Float) (duration_ms : Float)
      → IsRefusal (respond fl req fanout duration_ms)
  respond-IsRefusal req fanout duration_ms =
      bind-IsRefusal _ _ (or_unhandled-IsRefusal (aggregate fl req.operation fanout)) (λ result. tt)
    where
      or_unhandled-IsRefusal : (r : Result String Float) → IsRefusal (or_unhandled fl r)
      or_unhandled-IsRefusal (ok value) = tt
      or_unhandled-IsRefusal (err message) = tt

  queue-IsRefusal :
      (req : ProcessRequest Float) (r : Result CallError (List Float)) (duration_ms : Float)
      → IsRefusal (process_via_queue fl req r duration_ms)
  unfolding process_via_queue
  queue-IsRefusal req (ok fanout) duration_ms = respond-IsRefusal req fanout duration_ms
  queue-IsRefusal req (err (http_error e)) duration_ms = tt
  queue-IsRefusal req (err json_error) duration_ms = tt
  queue-IsRefusal req (err (key_error k)) duration_ms = tt

  pub service_a-IsRefusal :
      (d : Downstream Float) (path : String) (req : ProcessRequest Float)
      → IsRefusal (service_a fl hx d path req)
  unfolding service_a process_via_threadpool
  service_a-IsRefusal d path req = elim (Bool-cases (path == "/process")) [
    | inl main ↦ rw main (process-IsRefusal req d)
    | inr a ↦ elim (Bool-cases (path == "/process/queue")) [
      | inl queue ↦ rw (a, queue) (queue-IsRefusal req d.queued d.duration_ms)
      | inr b ↦ elim (Bool-cases (path == "/process/threadpool")) [
        | inl threads ↦ rw (a, b, threads) (respond-IsRefusal req _ d.duration_ms)
        | inr c ↦ rw (a, b, c) (omega arith)
      ]
    ]
  ]
