-- ===== src/FaultInjector/Main/Safety.antt =====
-- services/fault-injector/app/main.py: which containers are touched, and the range of the faults.
use text.Mathlib.Text.{starts_with}
use text.Mathlib.TextPositions.{starts_with-append}
use cloud_microservices.Prelude.{
  String, ◌≡◌, refl, inl, inr, Bool, true, some, List, [], ◌∷◌, arith, any, ◌==◌, pos, leb_ℤ, All,
  All-append, Bool-cases,
}
use cloud_microservices.Floats.{Floats}
use cloud_microservices.Shared.Models.{fault_request}
use cloud_microservices.FaultInjector.Injector
use cloud_microservices.FaultInjector.Injector.{
  DockerError, not_found, api_error, other_error, Docker, DockerCall, InjectorError, docker_error,
  permission_error, containers_get, container_stop, container_start, FaultState, Outcome,
}
use cloud_microservices.FaultInjector.Main.{
  allowed_targets, normalise_target, Moment, Request, inject_kill, inject_restart, inject_latency,
  inject_error, list_faults, slow, broken, target_status, serve, serve_all,
}

pub normalise_target_idempotent :
    (t : String) → normalise_target (normalise_target t) ≡ normalise_target t
unfolding normalise_target
normalise_target_idempotent t = elim (Bool-cases (starts_with t "cm-")) [
  | inl h ↦ rw (normalise_target, h) (rw (normalise_target, h) refl)
  | inr h ↦ rw (normalise_target, h) (rw (normalise_target, starts_with-append "cm-" t) refl)
]

abbrev pub is_listed : String → Bool
is_listed target = any (λ t. t == target) allowed_targets

-- a call that stops or starts a container does it to one of the allow-list
abbrev pub IsAllowed : DockerCall → Type 0
IsAllowed (containers_get t) = Unit
IsAllowed (container_stop t timeout) = is_listed t ≡ true
IsAllowed (container_start t) = is_listed t ≡ true

module _ (fl : Floats) where
  open fl use {Float}

  stop-IsAllowed :
      (d : Docker) (t : String) → All IsAllowed (Injector.stop d (some allowed_targets) t).1
  unfolding Injector.stop
  stop-IsAllowed d t = ground (arith, Injector.stop_sync)

  start-IsAllowed :
      (d : Docker) (t : String) → All IsAllowed (Injector.start d (some allowed_targets) t).1
  unfolding Injector.start
  start-IsAllowed d t = ground (arith, Injector.start_sync)

  pub serve-IsAllowed :
      (now : Moment) (request : Request Float) (state : FaultState Float)
      → All IsAllowed (serve fl now request state).2
  unfolding serve
  serve-IsAllowed now (inject_kill req) state =
      stop-IsAllowed now.docker (normalise_target req.target)
  serve-IsAllowed now (inject_restart req) state =
      start-IsAllowed now.docker (normalise_target req.target)
  serve-IsAllowed now (inject_latency req) state = ground arith
  serve-IsAllowed now (inject_error req) state = ground arith
  serve-IsAllowed now list_faults state = tt
  serve-IsAllowed now slow state = tt
  serve-IsAllowed now (broken draw) state = ground arith
  serve-IsAllowed now (target_status name) state = (tt, tt)

  -- Whatever requests arrive, validated or not, and whatever docker answers, every container that the
  -- injector stops or starts is on its allow-list.
  pub serve_all-IsAllowed :
      (requests : List (Moment × Request Float)) (state : FaultState Float)
      → All IsAllowed (serve_all fl requests state).1
  unfolding serve_all
  serve_all-IsAllowed [] state = tt
  serve_all-IsAllowed ((now, r) ∷ rs) state =
      All-append IsAllowed (serve fl now r state).2 (serve_all fl rs (serve fl now r state).1).1
        (serve-IsAllowed now r state) (serve_all-IsAllowed rs (serve fl now r state).1)

  -- the faults are in the range that the payload's validation sets
  abbrev pub IsInRange : FaultState Float → Type 0
  IsInRange state =
      (leb_ℤ (pos 0) state.latency_ms ≡ true)
      × (leb_ℤ state.latency_ms (pos 60000) ≡ true)
      × (fl.leb fl.zero state.error_rate ≡ true)
      × (fl.leb state.error_rate (fl.decimal 10 1) ≡ true)

  -- the payload, if there is one, has passed the validation
  abbrev pub IsValidated : Request Float → Type 0
  IsValidated (inject_kill req) = fault_request fl req ≡ some req
  IsValidated (inject_restart req) = fault_request fl req ≡ some req
  IsValidated (inject_latency req) = fault_request fl req ≡ some req
  IsValidated (inject_error req) = fault_request fl req ≡ some req
  IsValidated _ = Unit

  serve-IsInRange :
      (now : Moment) (request : Request Float) (state : FaultState Float)
      → IsValidated request
      → IsInRange state
      → IsInRange (serve fl now request state).1
  unfolding serve fault_request
  serve-IsInRange now (inject_kill req) state v h = h
  serve-IsInRange now (inject_restart req) state v h = h
  serve-IsInRange now (inject_latency req) state v h = ground arith
  serve-IsInRange now (inject_error req) state v h = ground arith
  serve-IsInRange now list_faults state v h = h
  serve-IsInRange now slow state v h = h
  serve-IsInRange now (broken draw) state v h = ground arith
  serve-IsInRange now (target_status name) state v h = h

  -- From faults in range, any row of validated requests leaves them in range: the latency from 0 to
  -- 60000 ms, the error rate from 0.0 to 1.0.
  pub serve_all-IsInRange :
      (requests : List (Moment × Request Float)) (state : FaultState Float)
      → All (λ i. IsValidated i.1) requests
      → IsInRange state
      → IsInRange (serve_all fl requests state).0
  unfolding serve_all
  serve_all-IsInRange [] state v h = h
  serve_all-IsInRange ((now, r) ∷ rs) state v h =
      serve_all-IsInRange rs (serve fl now r state).1 v.1 (serve-IsInRange now r state v.0 h)
