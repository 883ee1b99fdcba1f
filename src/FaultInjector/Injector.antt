-- ===== src/FaultInjector/Injector.antt =====
-- services/fault-injector/app/injector.py: the state of the injected faults and the controller of the
-- containers. What the docker SDK does is an argument; the calls of it are the values' second part.
use cloud_microservices.Prelude.{
  ℕ, String, Bool, true, false, not, ◌&&◌, Option, none, some, List, [], ◌∷◌, ◌==◌, any, ℤ, pos,
  leb_ℤ, if◌then◌else◌, Result, ok, err,
}
use cloud_microservices.Floats.{Floats}

-- `docker.errors.NotFound`, `docker.errors.APIError`, or an exception that is neither
pub data DockerError : Type 0 where
  not_found : DockerError
  api_error other_error : String → DockerError

-- What `containers.get` answers on a name, the container's status, and what `stop` and `start` of the
-- container do.
pub record Docker : Type 0 where
  pub find : String → Result DockerError String
  pub stop : String → ℕ → Result DockerError (Unit {0})
  pub start : String → Result DockerError (Unit {0})

pub data DockerCall : Type 0 where
  containers_get : String → DockerCall
  container_stop : String → ℕ → DockerCall
  container_start : String → DockerCall

pub data InjectorError : Type 0 where
  value_error : String → InjectorError
  permission_error : InjectorError
  docker_error : String → InjectorError

pub record FaultState (F : Type 0) : Type 0 where
  pub latency_ms : ℤ
  pub error_rate : F

module _ (fl : Floats) where
  open fl use {Float}

  unfoldable pub new_state : FaultState Float
  new_state = record { latency_ms = pos 0; error_rate = fl.zero }

  unfoldable pub set_latency : ℤ → FaultState Float → Result InjectorError (FaultState Float)
  set_latency duration_ms state =
      if not (leb_ℤ (pos 0) duration_ms)
      then err (value_error "duration_ms must be >= 0")
      else ok (record state { latency_ms = duration_ms })

  unfoldable pub set_error_rate : Float → FaultState Float → Result InjectorError (FaultState Float)
  set_error_rate rate state =
      if not (fl.leb fl.zero rate && fl.leb rate (fl.decimal 10 1))
      then err (value_error "rate must be in [0.0, 1.0]")
      else ok (record state { error_rate = rate })

  unfoldable pub snapshot : FaultState Float → ℤ × Float
  snapshot state = (state.latency_ms, state.error_rate)

  -- `maybe_fail`, where `draw` is what `random.random()` gives
  unfoldable pub maybe_fail : Float → FaultState Float → Bool
  maybe_fail draw state = fl.ltb draw state.error_rate

-- the dict that `stop` and `start` return
pub record Outcome : Type 0 where
  pub target : String
  pub action : String
  pub ok : Bool
  pub detail : String

-- the dict that `status` returns
pub record TargetStatus : Type 0 where
  pub target : String
  pub status : String
  pub detail : Option String

module _ (d : Docker) where
  -- the `except` clauses of `_stop_sync` and `_start_sync`
  unfoldable pub refused : String → String → DockerError → Result InjectorError Outcome
  refused target action not_found =
      ok (record { target = target; action = action; ok = false; detail = "container not found" })
  refused target action (api_error message) =
      ok (record { target = target; action = action; ok = false; detail = message })
  refused target action (other_error message) = err (docker_error message)

  -- `_stop_sync`
  unfoldable pub stop_sync : String → ℕ → Result InjectorError Outcome × List DockerCall
  unfolding refused
  stop_sync target timeout = elim (d.find target) [
    | err e ↦ (refused target "stop" e, containers_get target ∷ [])
    | ok _ ↦ elim (d.stop target timeout) [
      | err e ↦
          (refused target "stop" e, containers_get target ∷ container_stop target timeout ∷ [])
      | ok _ ↦ (
        ok (record { target = target; action = "stop"; ok = true; detail = "stopped" }),
        containers_get target ∷ container_stop target timeout ∷ [],
      )
    ]
  ]

  -- `_start_sync`
  unfoldable pub start_sync : String → Result InjectorError Outcome × List DockerCall
  unfolding refused
  start_sync target = elim (d.find target) [
    | err e ↦ (refused target "start" e, containers_get target ∷ [])
    | ok _ ↦ elim (d.start target) [
      | err e ↦ (refused target "start" e, containers_get target ∷ container_start target ∷ [])
      | ok _ ↦ (
        ok (record { target = target; action = "start"; ok = true; detail = "started" }),
        containers_get target ∷ container_start target ∷ [],
      )
    ]
  ]

  -- `_status_sync`
  unfoldable pub status_sync : String → Result InjectorError TargetStatus × List DockerCall
  status_sync target = (
    elim (d.find target) [
      | ok status' ↦ ok (record { target = target; status = status'; detail = none })
      | err not_found ↦ ok (record { target = target; status = "missing"; detail = none })
      | err (api_error message) ↦
          ok (record { target = target; status = "error"; detail = some message })
      | err (other_error message) ↦ err (docker_error message)
    ],
    containers_get target ∷ [],
  )

  -- `target in self._allow_targets`
  abbrev pub is_allowed : Option (List String) → String → Bool
  is_allowed none target = true
  is_allowed (some targets) target = any (λ t. t == target) targets

  -- `_check`, which raises `PermissionError`
  unfoldable pub check : Option (List String) → String → Result InjectorError (Unit {0})
  check allow_targets target =
      if is_allowed allow_targets target then ok tt else err permission_error

  -- `stop`, with its default timeout of 5 seconds
  unfoldable pub stop :
      Option (List String) → String → Result InjectorError Outcome × List DockerCall
  unfolding check stop_sync
  stop allow_targets target = elim (check allow_targets target) [
    | err e ↦ (err e, [])
    | ok _ ↦ stop_sync target 5
  ]

  -- `start`
  unfoldable pub start :
      Option (List String) → String → Result InjectorError Outcome × List DockerCall
  unfolding check start_sync
  start allow_targets target = elim (check allow_targets target) [
    | err e ↦ (err e, [])
    | ok _ ↦ start_sync target
  ]

  -- `status`, which asks about any container
  unfoldable pub status : String → Result InjectorError TargetStatus × List DockerCall
  unfolding status_sync
  status target = status_sync target
