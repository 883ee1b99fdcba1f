-- ===== src/ServiceA/Main/Flavours.antt =====
-- services/service-a/app/main.py: the three flavours of the pipeline compared.
use cloud_microservices.Prelude.{
  ℕ, ◌≤◌, String, ◌≡◌, sym, ap, ◌∙◌, Bool, false, ◌||◌, none, some, List, ◌∷◌, map, arith, ◌==◌, ℤ,
  length, length-map, Result, ok, err,
}
use cloud_microservices.Prelude.Dict.{Dict}
use cloud_microservices.Floats.{Floats}
use cloud_microservices.Http.{Exchange, Httpx}
use cloud_microservices.Shared.Retry.Laws.{settle-ok}
use cloud_microservices.Shared.Models.{ProcessRequest, ProcessResponse, http_exception, unhandled}
use cloud_microservices.ServiceA.Calls.{CallError, call_result}
use cloud_microservices.ServiceA.FanOut
use cloud_microservices.ServiceA.FanOut.{FanOut, Move}
use cloud_microservices.ServiceA.FanOut.Outcome.{fan_out_outcome}
use cloud_microservices.ServiceA.Main.{
  is_http_error, aggregate, cpp_result_of, process, process_via_queue, process_via_threadpool,
}
use cloud_microservices.ServiceA.Main.Laws.{settled, process-response, process-http_exception}

abbrev pub is_supported : String → Bool
is_supported operation = operation == "sum" || operation == "mean" || operation == "square_sum"

module _ (fl : Floats) where
  open fl use {Float}

  aggregate_unsupported :
      (operation : String) (x : Float) (xs : List Float)
      → is_supported operation ≡ false
      → aggregate fl operation (x ∷ xs) ≡ err "unsupported operation"
  unfolding aggregate
  aggregate_unsupported operation x xs h = ground arith

  -- An operation that is none of the three, over the values of at least one item: `process` answers
  -- 400, and the other two handlers let the `ValueError` through, which the middleware answers with 500.
  pub unsupported_operation :
      (hx : Httpx) (req : ProcessRequest Float) (fan_outs : ℕ → Result CallError (List Float))
      (jitter : ℕ → Float) (cpp : Exchange (Dict Float)) (duration_ms x y : Float)
      (xs ys : List Float)
      → is_supported req.operation ≡ false
      → settled fl hx req fan_outs jitter cpp duration_ms ≡ ok (x ∷ xs)
      → req.items ≡ y ∷ ys
      → (process fl hx req fan_outs jitter cpp duration_ms
          ≡ err (http_exception 400 "unsupported operation"))
        × (process_via_queue fl req (ok (x ∷ xs)) duration_ms
            ≡ err (unhandled "unsupported operation"))
        × (process_via_threadpool fl req duration_ms ≡ err (unhandled "unsupported operation"))
  unfolding process_via_queue process_via_threadpool
  unsupported_operation hx req fan_outs jitter cpp duration_ms x y xs ys h s items =
      let a = aggregate_unsupported req.operation x xs h in
      let b = aggregate_unsupported req.operation (fl.mul y y) (map (λ v. fl.mul v v) ys) h in
      (
        ((process-http_exception fl hx req fan_outs jitter cpp duration_ms).1
              "unsupported operation").1
            (x ∷ xs, none, s, unfold cpp_result_of in ground arith, a),
        rw a,
        rw items (rw b),
      )

  -- One attempt at the fan-out: a schedule of the event loop over the exchanges with service-b, and
  -- what `gather` has answered at its end.
  abbrev pub IsFanOut :
      Httpx → ℤ → List (Exchange (Dict Float)) → Result CallError (List Float) → Type 0
  IsFanOut hx concurrency exchanges answer =
      (ms : List Move) × (s : FanOut CallError Float) × (FanOut.run ms
          (FanOut.start concurrency (map (call_result hx) exchanges))
        ≡ some s)
      × (s.outcome ≡ some answer)

  IsFanOut-values :
      (hx : Httpx) (concurrency : ℤ) (exchanges : List (Exchange (Dict Float)))
      (answer : Result CallError (List Float)) (vs : List Float)
      → IsFanOut hx concurrency exchanges answer
      → answer ≡ ok vs
      → map (call_result hx) exchanges ≡ map ok vs
  IsFanOut-values hx concurrency exchanges answer vs (ms, s, r, o) e =
      (fan_out_outcome concurrency (map (call_result hx) exchanges) ms s r).0 vs (o ∙ ap some e)

  -- From the schedules to the client: each attempt is any run of the event loop over one exchange for
  -- each item. If `process` responds, one of the three attempts is one whose calls have all ended well, and the
  -- response holds their values in the order of the items, one for each item processed.
  pub process_end_to_end :
      (hx : Httpx) (req : ProcessRequest Float) (concurrency : ℤ)
      (exchanges : ℕ → List (Exchange (Dict Float))) (fan_outs : ℕ → Result CallError (List Float))
      (jitter : ℕ → Float) (cpp : Exchange (Dict Float)) (duration_ms : Float)
      (resp : ProcessResponse Float)
      → ((n : ℕ) → length (exchanges n) ≡ length req.items)
      → ((n : ℕ) → IsFanOut hx concurrency (exchanges n) (fan_outs n))
      → process fl hx req fan_outs jitter cpp duration_ms ≡ ok resp
      → (n : ℕ) × (1 ≤ n)
        × (n ≤ 3)
        × (map (call_result hx) (exchanges n) ≡ map ok resp.fanout_results)
        × (length resp.fanout_results ≡ resp.items_processed)
  process_end_to_end hx req concurrency exchanges fan_outs jitter cpp duration_ms resp sized runs
        h =
      let (s, _, _, _, n) = process-response fl hx req fan_outs jitter cpp duration_ms resp h in
      let (m, low, high, e) = settle-ok is_http_error fan_outs 2 1 resp.fanout_results s in
      let all =
        IsFanOut-values hx concurrency (exchanges m) (fan_outs m) resp.fanout_results (runs m) e in
      (
        m,
        low,
        high,
        all,
        sym (length-map {A = Float} {B = Result CallError Float} ok resp.fanout_results)
            ∙ ap length (sym all)
            ∙ length-map (call_result hx) (exchanges m)
            ∙ sized m
            ∙ sym n,
      )
