-- ===== src/FaultInjector/Main/Latency.antt =====
-- services/fault-injector/app/main.py: a latency that is set is the one that `GET /slow` applies.
use cloud_microservices.Prelude.{
  ◌≡◌, refl, ap, ◌∙◌, true, List, [], ◌∷◌, arith, pos, leb_ℤ, ok, All,
}
use cloud_microservices.Floats.{Floats}
use cloud_microservices.Shared.Models.{FaultRequest}
use cloud_microservices.FaultInjector.Injector.{FaultState}
use cloud_microservices.FaultInjector.Main.{
  Moment, Request, inject_kill, inject_restart, inject_latency, inject_error, list_faults, slow,
  broken, target_status, slept, slept_seconds, serve, serve_all,
}

module _ (fl : Floats) where
  open fl use {Float}

  -- any request but the one that sets the latency
  abbrev pub SparesLatency : Request Float → Type 0
  SparesLatency (inject_latency req) = ⊥
  SparesLatency _ = Unit

  latency-serve :
      (now : Moment) (r : Request Float) (state : FaultState Float)
      → SparesLatency r
      → (serve fl now r state).1.latency_ms ≡ state.latency_ms
  unfolding serve
  latency-serve now (inject_kill req) state h = refl
  latency-serve now (inject_restart req) state h = refl
  latency-serve now (inject_latency req) state h = absurd h
  latency-serve now (inject_error req) state h = ground arith
  latency-serve now list_faults state h = refl
  latency-serve now slow state h = refl
  latency-serve now (broken draw) state h = ground arith
  latency-serve now (target_status name) state h = refl

  latency-serve_all :
      (rs : List (Moment × Request Float)) (state : FaultState Float)
      → All (λ i. SparesLatency i.1) rs
      → (serve_all fl rs state).0.latency_ms ≡ state.latency_ms
  unfolding serve_all
  latency-serve_all [] state h = refl
  latency-serve_all ((now, r) ∷ rs) state h =
      latency-serve_all rs (serve fl now r state).1 h.1 ∙ latency-serve now r state h.0

  latency-inject_latency :
      (now : Moment) (req : FaultRequest Float) (state : FaultState Float)
      → leb_ℤ (pos 0) req.duration_ms ≡ true
      → (serve fl now (inject_latency req) state).1.latency_ms ≡ req.duration_ms
  unfolding serve
  latency-inject_latency now req state h = ground arith

  serve-slow :
      (now : Moment) (state : FaultState Float)
      → (serve fl now slow state).0
        ≡ ok (slept (slept_seconds fl state.latency_ms) state.latency_ms)
  unfolding serve
  serve-slow now state = refl

  -- A latency of at least 0 that is set is what `GET /slow` reports, and what it sleeps if it is above
  -- 0, after any further requests of which none sets the latency.
  pub slow_applies_latency :
      (now later : Moment) (req : FaultRequest Float) (rs : List (Moment × Request Float))
      (state : FaultState Float)
      → leb_ℤ (pos 0) req.duration_ms ≡ true
      → All (λ i. SparesLatency i.1) rs
      → (serve fl later slow (serve_all fl ((now, inject_latency req) ∷ rs) state).0).0
        ≡ ok (slept (slept_seconds fl req.duration_ms) req.duration_ms)
  unfolding serve_all
  slow_applies_latency now later req rs state n h =
      let after = (serve fl now (inject_latency req) state).1 in
      serve-slow later (serve_all fl rs after).0
      ∙ ap (λ l. ok (slept (slept_seconds fl l) l))
          (latency-serve_all rs after h ∙ latency-inject_latency now req state n)
