-- ===== src/ServiceA/Main/Laws.antt =====
-- services/service-a/app/main.py: the answers of `POST /process`.
use cloud_microservices.Prelude.{
  ℕ, String, ◌≡◌, ◌≢◌, refl, ◌↔◌, Option, none, List, [], ◌∷◌, arith, pos, length, Result, ok, err,
}
use cloud_microservices.Prelude.Dict.{Dict}
use cloud_microservices.Floats.{Floats}
use cloud_microservices.Http.{Exchange, HttpError, Httpx}
use cloud_microservices.Shared.Retry.{RetryError, raised, retry_async}
use cloud_microservices.Shared.Retry.Laws.{settle, retry_async-settle}
use cloud_microservices.Shared.Models.{
  ProcessRequest, ProcessResponse, HandlerError, http_exception,
}
use cloud_microservices.ServiceA.Calls.{CallError, http_error, call_result}
use cloud_microservices.ServiceA.Main.{is_http_error, aggregate, cpp_result_of, process}

module _ (fl : Floats) (hx : Httpx) (req : ProcessRequest fl.Float)
    (fan_outs : ℕ → Result CallError (List fl.Float)) (jitter : ℕ → fl.Float)
    (cpp : Exchange (Dict fl.Float)) (duration_ms : fl.Float) where
  open fl use {Float}

  -- what the three attempts at the fan-out come to
  abbrev pub settled : Result (RetryError CallError) (List Float)
  settled = settle is_http_error (fan_outs 1) (fan_outs 2 ∷ fan_outs 3 ∷ [])

  retried :
      (retry_async fl fan_outs (pos 3) (fl.decimal 2 1) (fl.decimal 50 1) jitter is_http_error).0
      ≡ settled
  retried =
      retry_async-settle fl fan_outs (fl.decimal 2 1) (fl.decimal 50 1) jitter is_http_error 2
        (omega arith)

  abbrev answer : Result HandlerError (ProcessResponse Float)
  answer = process fl hx req fan_outs jitter cpp duration_ms

  -- A response tells the operation, the number of items, the values of the fan-out that the attempts
  -- came to, and their aggregate.
  pub process-response :
      (resp : ProcessResponse Float)
      → answer ≡ ok resp
      → (settled ≡ ok resp.fanout_results)
        × (aggregate fl req.operation resp.fanout_results ≡ ok resp.result)
        × (cpp_result_of fl hx req.operation cpp ≡ ok resp.cpp_result)
        × (resp.operation ≡ req.operation)
        × (resp.items_processed ≡ length req.items)
  unfolding process
  process-response resp h = ground (arith, retried)

  cpp_not_http :
      (n : ℕ) (message : String)
      → cpp_result_of fl hx req.operation cpp ≢ err (http_exception n message)
  unfolding cpp_result_of
  cpp_not_http n message h = ground arith

  of_502 :
      (r : Result (RetryError CallError) (List Float))
      → settled ≡ r
      → answer ≡ err (http_exception 502 "service-b unreachable")
      → (e : HttpError) × (settled ≡ err (raised (http_error e)))
  unfolding process
  of_502 (err (raised (http_error e))) p h = (e, p)
  of_502 (err x) p h = absurd (ground (arith, retried))
  of_502 (ok fanout) p h =
      absurd (ground (arith, retried, cpp_not_http 502 "service-b unreachable"))

  abbrev pub Refused : String → Type 0
  Refused message =
      (fanout : List Float) × (o : Option Float) × (settled ≡ ok fanout)
      × (cpp_result_of fl hx req.operation cpp ≡ ok o)
      × (aggregate fl req.operation fanout ≡ err message)

  of_400 :
      (message : String) (r : Result (RetryError CallError) (List Float))
      (c : Result HandlerError (Option Float))
      → settled ≡ r
      → cpp_result_of fl hx req.operation cpp ≡ c
      → answer ≡ err (http_exception 400 message)
      → Refused message
  unfolding process
  of_400 message (ok fanout) (ok o) p q h = (fanout, o, p, q, ground (arith, retried))
  of_400 message (ok fanout) (err e) p q h =
      absurd (ground (arith, retried, cpp_not_http 400 message))
  of_400 message (err e) c p q h = absurd (ground (arith, retried))

  -- The client is told 502 exactly when the attempts come to a transport failure or a bad status of
  -- service-b, and 400 exactly when the fan-out and cpp-worker leave no exception and the operation is
  -- refused by the aggregation.
  pub process-http_exception :
      ((answer ≡ err (http_exception 502 "service-b unreachable"))
        ↔ ((e : HttpError) × (settled ≡ err (raised (http_error e)))))
      × ((message : String) → (answer ≡ err (http_exception 400 message)) ↔ Refused message)
  unfolding process
  process-http_exception = (
    (λ h. of_502 settled refl h, λ p. ground (arith, retried, p.1)),
    λ message. (
      λ h. of_400 message settled (cpp_result_of fl hx req.operation cpp) refl refl h,
      λ p. ground (arith, retried, p.2, p.3, p.4),
    ),
  )

-- an answer of which the value of cpp-worker is left out
abbrev pub without_cpp :
    {F : Type 0} → Result HandlerError (ProcessResponse F) → Result HandlerError (ProcessResponse F)
without_cpp (ok response) = ok (record response { cpp_result = none })
without_cpp (err e) = err e

-- Whatever the fan-out and the operation come to, where cpp-worker cannot be reached or answers with a bad status
-- `process` answers as it would with any value of cpp-worker, a refusal or an exception included, but for the
-- `cpp_result`, which is none.
pub process-cpp_unreachable :
    (fl : Floats) (hx : Httpx) (req : ProcessRequest fl.Float)
    (fan_outs : ℕ → Result CallError (List fl.Float)) (jitter : ℕ → fl.Float)
    (cpp cpp' : Exchange (Dict fl.Float)) (duration_ms : fl.Float) (e : HttpError)
    (value : fl.Float)
    → call_result hx cpp ≡ err (http_error e)
    → call_result hx cpp' ≡ ok value
    → process fl hx req fan_outs jitter cpp duration_ms
      ≡ without_cpp (process fl hx req fan_outs jitter cpp' duration_ms)
unfolding process cpp_result_of
process-cpp_unreachable fl hx req fan_outs jitter cpp cpp' duration_ms e value gone there =
    ground arith
