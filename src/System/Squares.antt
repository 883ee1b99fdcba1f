-- ===== src/System/Squares.antt =====
-- services/service-a/app in front of services/service-b/app/main.py: the values that a response
-- of `/process` holds, from the payloads that the fan-out posts to `/squared` and the answers to
-- them.
pub mod Agree
use Prim.Native.String
use cloud_microservices.Prelude.{
  ℕ, ◌+◌, String, ◌≡◌, refl, sym, ap, ◌⊎◌, inl, inr, ◌∙◌, false, Option, none, some, List, [], ◌∷◌,
  suc, map, arith, ℤ, length, Result, ok, err, str_ℕ,
}
use cloud_microservices.Prelude.Dict
use cloud_microservices.Prelude.Dict.{Dict}
use cloud_microservices.Floats.{Floats}
use cloud_microservices.Http.{Exchange, answered, failed, Response, Httpx, checked, IsAnswer}
use cloud_microservices.Shared.Models.{
  StoreRecord, ProcessRequest, ProcessResponse, HandlerError, http_exception, unhandled,
}
use cloud_microservices.Shared.App.{
  Reply, Outcome, responded, raised, ServiceApp, AppError, middleware,
}
use cloud_microservices.ServiceA.Calls.{CallError, call_result}
use cloud_microservices.ServiceA.Main.{aggregate, process}
use cloud_microservices.ServiceA.Main.Laws.{process-response}
use cloud_microservices.ServiceA.Main.Flavours.{IsFanOut, process_end_to_end}
use cloud_microservices.ServiceB.Main.{Squared, squared}

-- The bodies of service-b: FastAPI writes what `squared` returns, `internal_error` is the
-- middleware's 500, `text` is a body as it is sent, and `numbers` are the fields of an object
-- that service-a reads.
pub record Bodies (F J : Type 0) : Type 0 where
  pub squares : Squared F → J
  pub detail : String → J
  pub internal_error : J
  pub text : J → String
  pub numbers : J → Option (Dict F)

module _ (fl : Floats) where
  open fl use {Float}

  -- the payloads that `fan_out_to_service_b` posts for the items from the index `idx` on
  unfoldable pub payloads : ℕ → List Float → List (StoreRecord Float)
  payloads idx [] = []
  payloads idx (v ∷ vs) =
      record { key = String.◌++◌ "item-" (str_ℕ idx); value = v } ∷ payloads (idx + 1) vs

  length-payloads : (idx : ℕ) (items : List Float) → length (payloads idx items) ≡ length items
  unfolding payloads
  length-payloads idx [] = refl
  length-payloads idx (v ∷ vs) = ap suc (length-payloads (idx + 1) vs)

  pow-payloads :
      (idx : ℕ) (items : List Float)
      → map (λ p. fl.pow p.value 2) (payloads idx items) ≡ map (λ v. fl.pow v 2) items
  unfolding payloads
  pow-payloads idx [] = refl
  pow-payloads idx (v ∷ vs) = ap (λ rest. fl.pow v 2 ∷ rest) (pow-payloads (idx + 1) vs)

  module _ {J : Type 0} (bodies : Bodies Float J) where
    abbrev routed : Result HandlerError (Squared Float) → Outcome J
    routed (ok s) = responded (record { status_code = 200; body = bodies.squares s })
    routed (err (http_exception code detail)) =
        responded (record { status_code = code; body = bodies.detail detail })
    routed (err (unhandled message)) = raised message

    abbrev received : Result AppError (Reply J) → Exchange (Dict Float)
    received (ok r) = answered (record {
      status_code = r.status_code;
      text = bodies.text r.body;
      json = bodies.numbers r.body;
    })
    received (err e) = failed "Internal Server Error"

    -- `POST /squared` of service-b behind its middleware
    unfoldable pub call_service_b :
        Float → ServiceApp Float → StoreRecord Float → Exchange (Dict Float)
    call_service_b ms app payload =
        received
          (middleware fl bodies.internal_error (record { path = "/squared"; method = "POST" })
            (routed (squared fl payload)) ms app).0

    module _ (hx : Httpx) where
      -- What httpx and FastAPI document: 500 is no success, and the body of `squared` is read
      -- back with its result.
      pub record IsHonest : Type 0 where
        pub refusal : hx.is_success 500 ≡ false
        pub result :
            (s : Squared Float)
            → (body : Dict Float) × (bodies.numbers (bodies.squares s) ≡ some body)
              × (Dict.get "result" body ≡ some s.result)

      -- A call may fail in any way, but a success is an answer of service-b, in whichever state.
      abbrev pub IsMet : StoreRecord Float → Exchange (Dict Float) → Type 0
      IsMet payload x =
          (r : Response (Dict Float))
          → IsAnswer hx x r
          → (ms : Float) × (app : ServiceApp Float) × (x ≡ call_service_b ms app payload)

      abbrev pub AreMet : List (StoreRecord Float) → List (Exchange (Dict Float)) → Type 0
      AreMet [] [] = Unit
      AreMet [] (x ∷ xs) = ⊥
      AreMet (p ∷ ps) [] = ⊥
      AreMet (p ∷ ps) (x ∷ xs) = IsMet p x × AreMet ps xs

      call_service_b_squares :
          (ms : Float) (app : ServiceApp Float) (payload : StoreRecord Float) (v : Float)
          → IsHonest
          → call_result hx (call_service_b ms app payload) ≡ ok v
          → fl.pow payload.value 2 ≡ some v
      unfolding call_service_b middleware squared call_result checked
      call_service_b_squares ms app payload v honest h = elim (pow_cases (fl.pow payload.value 2)) [
        | inl none' ↦ ground (arith, none', honest.refusal)
        | inr (w, some') ↦
            let s : Squared Float = record {
              key = payload.key;
              input = payload.value;
              result = w;
            } in
            let (body, n, g) = honest.result s in ground (arith, some', n, g)
      ]
        where
          pow_cases : (o : Option Float) → (o ≡ none) ⊎ ((w : Float) × (o ≡ some w))
          pow_cases none = inl refl
          pow_cases (some w) = inr (w, refl)

      call_result-IsAnswer :
          (x : Exchange (Dict Float)) (v : Float)
          → call_result hx x ≡ ok v
          → (r : Response (Dict Float)) × IsAnswer hx x r
      unfolding call_result checked
      call_result-IsAnswer (answered r) v h = (r, (refl, ground arith))
      call_result-IsAnswer (failed message) v h = ground arith

      call_squares :
          (payload : StoreRecord Float) (x : Exchange (Dict Float)) (v : Float)
          → IsHonest
          → IsMet payload x
          → call_result hx x ≡ ok v
          → fl.pow payload.value 2 ≡ some v
      call_squares payload x v honest met h =
          let (r, a) = call_result-IsAnswer x v h in
          let (ms, app, p) = met r a in
          call_service_b_squares ms app payload v honest (sym (ap (call_result hx) p) ∙ h)

      -- calls that have all ended well have the squares of their payloads
      pub calls_square :
          (ps : List (StoreRecord Float)) (xs : List (Exchange (Dict Float))) (vs : List Float)
          → IsHonest
          → AreMet ps xs
          → map (call_result hx) xs ≡ map ok vs
          → map some vs ≡ map (λ p. fl.pow p.value 2) ps
      calls_square [] [] [] honest met h = refl
      calls_square [] [] (v ∷ vs) honest met h = ground arith
      calls_square [] (x ∷ xs) vs honest met h = absurd met
      calls_square (p ∷ ps) [] vs honest met h = absurd met
      calls_square (p ∷ ps) (x ∷ xs) [] honest met h = ground arith
      calls_square (p ∷ ps) (x ∷ xs) (v ∷ vs) honest (m, met) h =
          let rest = calls_square ps xs vs honest met (ground arith) in
          cc (call_squares p x v honest m (ground arith), rest)

      pub AreMet-length :
          (ps : List (StoreRecord Float)) (xs : List (Exchange (Dict Float)))
          → AreMet ps xs
          → length xs ≡ length ps
      AreMet-length [] [] met = refl
      AreMet-length [] (x ∷ xs) met = absurd met
      AreMet-length (p ∷ ps) [] met = absurd met
      AreMet-length (p ∷ ps) (x ∷ xs) (m, met) = ap suc (AreMet-length ps xs met)

      -- If every success that the fan-out of each attempt meets is an answer of service-b to the
      -- payload of its item, a response of `process` holds the squares of the items, in their
      -- order, which are all defined, and its result is the aggregate of these squares.
      pub process_squares :
          (req : ProcessRequest Float) (concurrency : ℤ)
          (exchanges : ℕ → List (Exchange (Dict Float)))
          (fan_outs : ℕ → Result CallError (List Float)) (jitter : ℕ → Float)
          (cpp : Exchange (Dict Float)) (duration_ms : Float) (resp : ProcessResponse Float)
          → IsHonest
          → ((n : ℕ) → AreMet (payloads 0 req.items) (exchanges n))
          → ((n : ℕ) → IsFanOut fl hx concurrency (exchanges n) (fan_outs n))
          → process fl hx req fan_outs jitter cpp duration_ms ≡ ok resp
          → (map some resp.fanout_results ≡ map (λ v. fl.pow v 2) req.items)
            × (aggregate fl req.operation resp.fanout_results ≡ ok resp.result)
      process_squares req concurrency exchanges fan_outs jitter cpp duration_ms resp honest met runs
            h =
          let (_, aggregated, _, _, _) =
            process-response fl hx req fan_outs jitter cpp duration_ms resp h in
          let (n, _, _, all, _) =
            process_end_to_end fl hx req concurrency exchanges fan_outs jitter cpp duration_ms resp
              (λ n.
                AreMet-length (payloads 0 req.items) (exchanges n) (met n)
                ∙ length-payloads 0 req.items)
              runs h in
          (
            calls_square (payloads 0 req.items) (exchanges n) resp.fanout_results honest (met n) all
                ∙ pow-payloads 0 req.items,
            aggregated,
          )
