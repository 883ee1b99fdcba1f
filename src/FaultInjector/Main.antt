-- ===== src/FaultInjector/Main.antt =====
-- services/fault-injector/app/main.py: the handlers. Their bodies have passed the validation of
-- `FaultRequest`; `draw` is what `random.random()` gives.
pub mod Safety
pub mod Kill
pub mod Latency
use Prim.Native.String
use text.Mathlib.Text.{starts_with}
use cloud_microservices.Prelude.{
  ℕ, String, Bool, true, false, Option, none, some, List, [], ◌∷◌, ◌++◌, zero, suc, ℤ, pos, negsuc,
  str_ℤ, if◌then◌else◌, Result, ok, err,
}
use cloud_microservices.Floats.{Floats}
use cloud_microservices.Shared.Models.{
  FaultKind, FaultRequest, FaultResponse, kill, latency, error, HandlerError, http_exception,
  unhandled,
}
use cloud_microservices.FaultInjector.Injector
use cloud_microservices.FaultInjector.Injector.{
  Docker, DockerCall, InjectorError, value_error, permission_error, docker_error, FaultState,
  Outcome, TargetStatus,
}

abbrev pub allowed_targets : List String
allowed_targets = "cm-api-gateway" ∷ "cm-service-a" ∷ "cm-service-b" ∷ "cm-cpp-worker" ∷ []

-- `_normalise_target`
unfoldable pub normalise_target : String → String
normalise_target target = if starts_with target "cm-" then target else String.◌++◌ "cm-" target

-- what docker does while a request is served, and the time that `_utcnow` gives
pub record Moment : Type 0 where
  pub docker : Docker
  pub utcnow : ℕ

pub data Request (F : Type 0) : Type 0 where
  inject_kill inject_restart inject_latency inject_error : FaultRequest F → Request F
  list_faults slow : Request F
  broken : F → Request F
  target_status : String → Request F

pub data Answer (F : Type 0) : Type 0 where
  fault_response : FaultResponse → Answer F
  faults : ℤ → F → Answer F
  -- the slept, and the body's `slept_ms`
  slept : Option F → ℤ → Answer F
  json_response : ℕ → String → Answer F
  status_of : TargetStatus → Answer F

-- how a handler lets an exception of the injector through
abbrev pub raised : {A : Type 0} → InjectorError → Result HandlerError A
raised (value_error message) = err (unhandled message)
raised permission_error = err (unhandled "PermissionError")
raised (docker_error message) = err (unhandled message)

-- the end of `inject_kill` and `inject_restart`: both answer with `FaultKind.KILL`; the detail of the
-- 403 is given without the target and the list
unfoldable pub responded :
    {F : Type 0} → ℕ → String → Result InjectorError Outcome → Result HandlerError (Answer F)
responded utcnow target (ok result) = ok (
    fault_response (record {
      kind = kill;
      target = target;
      accepted = result.ok;
      detail = result.detail;
      timestamp = utcnow;
    }))
responded utcnow target (err permission_error) = err (http_exception 403 "not in allow-list")
responded utcnow target (err (value_error message)) = err (unhandled message)
responded utcnow target (err (docker_error message)) = err (unhandled message)

module _ (fl : Floats) where
  open fl use {Float}

  -- the argument of `asyncio.sleep` in `slow`, `duration_ms / 1000.0`
  abbrev pub slept_seconds : ℤ → Option Float
  slept_seconds (pos zero) = none
  slept_seconds (pos (suc n)) = some (fl.div (fl.of_ℕ (suc n)) (fl.decimal 10000 1))
  slept_seconds (negsuc n) = none

  -- One request: its answer, the state after it, and the calls of docker it made.
  unfoldable pub serve :
      Moment
      → Request Float
      → FaultState Float
      → Result HandlerError (Answer Float) × FaultState Float × List DockerCall
  unfolding normalise_target responded Injector.stop Injector.start Injector.status
      Injector.set_latency Injector.set_error_rate Injector.snapshot Injector.maybe_fail
  serve now (inject_kill req) state =
      let target = normalise_target req.target in
      let (result, calls) = Injector.stop now.docker (some allowed_targets) target in
      (responded now.utcnow target result, state, calls)
  serve now (inject_restart req) state =
      let target = normalise_target req.target in
      let (result, calls) = Injector.start now.docker (some allowed_targets) target in
      (responded now.utcnow target result, state, calls)
  serve now (inject_latency req) state = elim (Injector.set_latency fl req.duration_ms state) [
    | err e ↦ (raised e, state, [])
    | ok state' ↦ (
      ok (
          fault_response (record {
            kind = latency;
            target = req.target;
            accepted = true;
            detail = String.◌++◌ "latency_ms=" (str_ℤ req.duration_ms);
            timestamp = now.utcnow;
          })),
      state',
      [],
    )
  ]
  serve now (inject_error req) state = elim (Injector.set_error_rate fl req.error_rate state) [
    | err e ↦ (raised e, state, [])
    | ok state' ↦ (
      ok (
          fault_response (record {
            kind = error;
            target = req.target;
            accepted = true;
            detail = String.◌++◌ "error_rate=" (fl.show req.error_rate);
            timestamp = now.utcnow;
          })),
      state',
      [],
    )
  ]
  serve now list_faults state =
      let (latency_ms, error_rate) = Injector.snapshot fl state in
      (ok (faults latency_ms error_rate), state, [])
  serve now slow state =
      let (latency_ms, _) = Injector.snapshot fl state in
      (ok (slept (slept_seconds latency_ms) latency_ms), state, [])
  serve now (broken draw) state =
      if Injector.maybe_fail fl draw state
      then (ok (json_response 500 "deliberate failure"), state, [])
      else (ok (json_response 200 "ok"), state, [])
  serve now (target_status name) state =
      let (result, calls) = Injector.status now.docker (normalise_target name) in
      (elim result [ err e ↦ raised e | ok found ↦ ok (status_of found) ], state, calls)

  -- a row of requests, each at its moment: the state after it, and all calls of docker in their order
  unfoldable pub serve_all :
      List (Moment × Request Float) → FaultState Float → FaultState Float × List DockerCall
  unfolding serve
  serve_all [] state = (state, [])
  serve_all ((now, request) ∷ requests) state =
      let (_, state', calls) = serve now request state in
      let (state'', calls') = serve_all requests state' in (state'', calls ++ calls')
