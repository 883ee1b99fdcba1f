-- ===== src/Orchestration/Recovery/Safety.antt =====
-- orchestration/recovery.py: whole poll cycles of the watcher.
use cloud_microservices.Prelude.{
  String, ◌≡◌, refl, ap, ◌∙◌, true, false, Option, none, some, List, [], ◌∷◌, ◌++◌, map, arith,
  Result, ok, err, ◌⊎◌, All, inl, inr, Bool-cases, Option-cases, Result-cases,
}
use cloud_microservices.Prelude.Dict
use cloud_microservices.Prelude.Dict.{Dict, get-put, is_some}
use cloud_microservices.Floats.{Floats}
use cloud_microservices.Http.{Httpx}
use cloud_microservices.Orchestration.Targets.{ServiceTarget}
use cloud_microservices.Orchestration.Health.{HealthResult, probe_all}
use cloud_microservices.Orchestration.Health.Laws.{targets-probe_all}
use cloud_microservices.Orchestration.Recovery.{
  ServiceRuntime, RecoveryWatcher, Action, Attempt, Poll, WatchError, file_not_found_error, raises,
  react, react_all, tick,
}
use cloud_microservices.Orchestration.Recovery.Invariant.{
  Watches, IsWatching, react_keeps, react-Watches_all, react-IsWatching,
}

-- what a poll cycle leaves alone
pub record IsSameWatch {F : Type 0} (w w' : RecoveryWatcher F) : Type 0 where
  pub targets : w'.targets ≡ w.targets
  pub config : w'.config ≡ w.config
  pub stop : w'.stop ≡ w.stop

abbrev targets_of : List HealthResult → List ServiceTarget
targets_of = map (λ r. r.target)

module _ (fl : Floats) where
  open fl use {Float}

  pub runtime_of :
      (o : Option (ServiceRuntime Float))
      → is_some o ≡ true
      → (rt : ServiceRuntime Float) × (o ≡ some rt)
  runtime_of none h = cc
  runtime_of (some rt) h = (rt, refl)

  pub react_all_cons :
      (w : RecoveryWatcher Float) (r : HealthResult) (rs : List HealthResult)
      (attempt : String → Attempt Float) (rt : ServiceRuntime Float)
      (out : RecoveryWatcher Float × List (Action Float))
      → Dict.get r.target.name w.runtimes ≡ some rt
      → raises fl w rt r attempt ≡ false
      → react_all fl (react fl w rt r attempt).0 rs attempt ≡ ok out
      → react_all fl w (r ∷ rs) attempt ≡ ok (out.0, (react fl w rt r attempt).1 ++ out.1)
  unfolding react_all
  react_all_cons w r rs attempt rt out here starts e = rw (react_all, here, starts, e) refl

  react_all_error :
      (w : RecoveryWatcher Float) (r : HealthResult) (rs : List HealthResult)
      (attempt : String → Attempt Float) (rt : ServiceRuntime Float) (exc : WatchError)
      → Dict.get r.target.name w.runtimes ≡ some rt
      → raises fl w rt r attempt ≡ false
      → react_all fl (react fl w rt r attempt).0 rs attempt ≡ err exc
      → react_all fl w (r ∷ rs) attempt ≡ err exc
  unfolding react_all
  react_all_error w r rs attempt rt exc here starts e = rw (react_all, here, starts, e) refl

  react_all-raises :
      (w : RecoveryWatcher Float) (r : HealthResult) (rs : List HealthResult)
      (attempt : String → Attempt Float) (rt : ServiceRuntime Float)
      → Dict.get r.target.name w.runtimes ≡ some rt
      → raises fl w rt r attempt ≡ true
      → react_all fl w (r ∷ rs) attempt ≡ err (file_not_found_error w.config.docker_bin)
  unfolding react_all
  react_all-raises w r rs attempt rt here fails = rw (react_all, here, fails) refl

  -- A cycle that goes through its results found a runtime for the first one.
  pub react_all_inv :
      (w : RecoveryWatcher Float) (r : HealthResult) (rs : List HealthResult)
      (attempt : String → Attempt Float) (out : RecoveryWatcher Float × List (Action Float))
      → react_all fl w (r ∷ rs) attempt ≡ ok out
      → (rt : ServiceRuntime Float) × (rest : RecoveryWatcher Float × List (Action Float))
        × (Dict.get r.target.name w.runtimes ≡ some rt)
        × (react_all fl (react fl w rt r attempt).0 rs attempt ≡ ok rest)
        × (out ≡ (rest.0, (react fl w rt r attempt).1 ++ rest.1))
  unfolding react_all
  react_all_inv w r rs attempt out e = elim (Option-cases (Dict.get r.target.name w.runtimes)) [
    | inl missing ↦ absurd (ground arith)
    | inr (rt, here) ↦ elim (Bool-cases (raises fl w rt r attempt)) [
      | inl fails ↦ absurd (ground (arith, react_all-raises w r rs attempt rt here fails))
      | inr starts ↦ elim (Result-cases (react_all fl (react fl w rt r attempt).0 rs attempt)) [
        | inl (rest, e') ↦ (
          rt,
          rest,
          here,
          e',
          ground (arith, react_all_cons w r rs attempt rt rest here starts e'),
        )
        | inr (exc, e') ↦
            absurd (ground (arith, react_all_error w r rs attempt rt exc here starts e'))
      ]
    ]
  ]

  -- docker cannot be started for some container
  abbrev pub HasNoDocker : (String → Attempt Float) → Type 0
  HasNoDocker attempt = (c : String) × ((attempt c).launched ≡ false)

  -- docker can be started for every container
  abbrev pub Launches : (String → Attempt Float) → Type 0
  Launches attempt = (c : String) → (attempt c).launched ≡ true

  -- a cycle has ended in a good state, or a restart has raised for want of docker
  abbrev CycleEnds :
      RecoveryWatcher Float
      → (String → Attempt Float)
      → Result WatchError (RecoveryWatcher Float × List (Action Float))
      → Type 0
  CycleEnds w attempt result =
      ((out : RecoveryWatcher Float × List (Action Float)) × (result ≡ ok out)
        × IsWatching out.0
        × IsSameWatch w out.0)
      ⊎ (HasNoDocker attempt × (result ≡ err (file_not_found_error w.config.docker_bin)))

  react_all_ends :
      (w : RecoveryWatcher Float) (results : List HealthResult) (attempt : String → Attempt Float)
      → All (Watches w) (targets_of results)
      → IsWatching w
      → CycleEnds w attempt (react_all fl w results attempt)
  unfolding react_all
  react_all_ends w [] attempt h v =
      inl ((w, []), refl, v, record { targets = refl; config = refl; stop = refl })
  react_all_ends w (r ∷ rs) attempt h v =
      let (rt, here) = runtime_of (Dict.get r.target.name w.runtimes) h.0 in
      let step = react fl w rt r attempt in
      let keeps = react_keeps fl w rt r attempt in
      elim (Bool-cases (raises fl w rt r attempt)) [
        | inl fails ↦
            inr ((rt.target.container, ground arith), react_all-raises w r rs attempt rt here fails)
        | inr starts ↦
            elim (react_all_ends step.0 rs attempt
              (react-Watches_all fl w rt r attempt (targets_of rs) h.1)
              (react-IsWatching fl w rt r attempt here v)) [
                | inl (out, e, v', same) ↦ inl (
                  (out.0, step.1 ++ out.1),
                  react_all_cons w r rs attempt rt out here starts e,
                  v',
                  record {
                    targets = same.targets ∙ keeps.0;
                    config = same.config ∙ keeps.1;
                    stop = same.stop ∙ keeps.2;
                  },
                )
                | inr (without, e) ↦ inr (
                  without,
                  react_all_error w r rs attempt rt _ here starts e
                      ∙ ap (λ c. err (file_not_found_error c.docker_bin)) keeps.1,
                )
              ]
      ]

  module _ {J : Type 0} (hx : Httpx) where
    -- A poll cycle never meets a service without a runtime: it ends, with the invariant again and the
    -- targets, the configuration and the stop flag as before, or raises for want of docker.
    pub tick_ends :
        (w : RecoveryWatcher Float) (poll : Poll J Float)
        → IsWatching w
        → CycleEnds w poll.attempt (tick fl hx w poll)
    unfolding tick
    tick_ends w poll v =
        react_all_ends w (probe_all hx w.targets poll.get) poll.attempt
          (rw (targets-probe_all hx poll.get) v.every_target) v

    pub tick-IsWatching :
        (w : RecoveryWatcher Float) (poll : Poll J Float)
        → Launches poll.attempt
        → IsWatching w
        → (out : RecoveryWatcher Float × List (Action Float)) × (tick fl hx w poll ≡ ok out)
          × IsWatching out.0
          × IsSameWatch w out.0
    tick-IsWatching w poll docker v = elim (tick_ends w poll v) [
      | inl ended ↦ ended
      | inr ((c, without), _) ↦ absurd (ground (arith, docker c))
    ]
