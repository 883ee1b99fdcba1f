-- ===== src/Orchestration/Recovery/Runs.antt =====
-- orchestration/recovery.py: whole runs of the watcher.
use cloud_microservices.Prelude.{
  Result-cases, sym, ◌>>=◌, ◌≡◌, refl, ap, ◌∙◌, Bool, true, false, List, [], ◌∷◌, ◌++◌, arith,
  Result, ok, err, ◌⊎◌, if◌then◌else◌, inl, inr, Bool-cases,
}
use cloud_microservices.Floats.{Floats}
use cloud_microservices.Http.{Httpx}
use cloud_microservices.Orchestration.Recovery.{
  RecoveryWatcher, Action, Poll, WatchError, file_not_found_error, request_stop, tick, run,
}
use cloud_microservices.Orchestration.Recovery.Invariant.{IsWatching}
use cloud_microservices.Orchestration.Recovery.Safety.{HasNoDocker, tick_ends}

-- the loop is over, by its stop or by an exception
abbrev pub IsOver :
    {F : Type 0} → Result WatchError (RecoveryWatcher F × List (Action F) × Bool) → Type 0
IsOver (ok out) = out.2 ≡ true
IsOver (err exc) = Unit

-- a run behind a cycle, with the actions of both
abbrev extend :
    {F : Type 0}
    → List (Action F)
    → Result WatchError (RecoveryWatcher F × List (Action F) × Bool)
    → Result WatchError (RecoveryWatcher F × List (Action F) × Bool)
extend actions r = r >>= λ last. ok (last.0, actions ++ last.1, last.2)

extend-IsOver :
    {F : Type 0} (actions : List (Action F))
    (r : Result WatchError (RecoveryWatcher F × List (Action F) × Bool))
    → IsOver r
    → IsOver (extend actions r)
extend-IsOver actions (ok out) h = h
extend-IsOver actions (err exc) h = tt

module _ (fl : Floats) where
  open fl use {Float}

  -- a stop that is requested by the end of the wait
  abbrev pub stop_if : Bool → RecoveryWatcher Float → RecoveryWatcher Float
  stop_if requested w = if requested then request_stop w else w

  pub stop_if_keeps :
      (b : Bool) (w : RecoveryWatcher Float)
      → ((stop_if b w).targets ≡ w.targets)
        × ((stop_if b w).config ≡ w.config)
        × ((stop_if b w).runtimes ≡ w.runtimes)
        × ((stop_if b w).recovery_count ≡ w.recovery_count)
  unfolding request_stop
  stop_if_keeps b w = ground arith

  pub stop_if-IsWatching :
      (b : Bool) {w : RecoveryWatcher Float} → IsWatching w → IsWatching (stop_if b w)
  unfolding request_stop
  stop_if-IsWatching false v = v
  stop_if-IsWatching true v = record {
    every_target = v.every_target;
    every_runtime = λ k rt h. record {
      named = (v.every_runtime k rt h).named;
      counted = (v.every_runtime k rt h).counted;
      below = (v.every_runtime k rt h).below;
    };
  }

  module _ {J : Type 0} (hx : Httpx) where
    pub run_cons :
        (w : RecoveryWatcher Float) (poll : Poll J Float) (polls : List (Poll J Float))
        (out : RecoveryWatcher Float × List (Action Float))
        (last : RecoveryWatcher Float × List (Action Float) × Bool)
        → w.stop ≡ false
        → tick fl hx w poll ≡ ok out
        → run fl hx (stop_if poll.stop_requested out.0) polls ≡ ok last
        → run fl hx w (poll ∷ polls) ≡ ok (last.0, out.1 ++ last.1, last.2)
    unfolding run
    run_cons w poll polls out last going e e' = ground arith

    run_first_error :
        (w : RecoveryWatcher Float) (poll : Poll J Float) (polls : List (Poll J Float))
        (exc : WatchError)
        → w.stop ≡ false
        → tick fl hx w poll ≡ err exc
        → run fl hx w (poll ∷ polls) ≡ err exc
    unfolding run
    run_first_error w poll polls exc going e = rw (run, going, e) refl

    run_error :
        (w : RecoveryWatcher Float) (poll : Poll J Float) (polls : List (Poll J Float))
        (out : RecoveryWatcher Float × List (Action Float)) (exc : WatchError)
        → w.stop ≡ false
        → tick fl hx w poll ≡ ok out
        → run fl hx (stop_if poll.stop_requested out.0) polls ≡ err exc
        → run fl hx w (poll ∷ polls) ≡ err exc
    unfolding run
    run_error w poll polls out exc going e e' = rw (run, going, e, e') refl

    -- docker cannot be started in one of the cycles
    abbrev pub SometimesHasNoDocker : List (Poll J Float) → Type 0
    SometimesHasNoDocker [] = ⊥
    SometimesHasNoDocker (poll ∷ polls) = HasNoDocker fl poll.attempt ⊎ SometimesHasNoDocker polls

    -- how a run can end
    abbrev pub RunEnds :
        RecoveryWatcher Float
        → List (Poll J Float)
        → Result WatchError (RecoveryWatcher Float × List (Action Float) × Bool)
        → Type 0
    RunEnds w polls result =
        ((out : RecoveryWatcher Float × List (Action Float) × Bool) × (result ≡ ok out)
          × IsWatching out.0
          × (out.0.targets ≡ w.targets)
          × (out.0.config ≡ w.config))
        ⊎ (SometimesHasNoDocker polls × (result ≡ err (file_not_found_error w.config.docker_bin)))

    -- From a watcher that satisfies the invariant, a run ends in one that satisfies it, with the same
    -- targets and configuration, whatever the probes and the `docker start` commands meet, unless it raises
    -- `FileNotFoundError`, for which docker cannot be started in one of its cycles. It raises no `KeyError`.
    pub run-IsWatching :
        (w : RecoveryWatcher Float) (polls : List (Poll J Float))
        → IsWatching w
        → RunEnds w polls (run fl hx w polls)
    unfolding run
    run-IsWatching w [] v = inl ((w, [], w.stop), refl, v, refl, refl)
    run-IsWatching w (poll ∷ polls) v = elim (Bool-cases w.stop) [
      | inl stopped ↦ inl ((w, [], true), rw stopped, v, refl, refl)
      | inr going ↦ elim (tick_ends fl hx w poll v) [
        | inr (without, e) ↦ inr (inl without, run_first_error w poll polls _ going e)
        | inl (out, e, v', same) ↦
            let w' = stop_if poll.stop_requested out.0 in
            let (t, c, _, _) = stop_if_keeps poll.stop_requested out.0 in
            elim (run-IsWatching w' polls (stop_if-IsWatching poll.stop_requested v')) [
              | inl (last, e', v'', t', c') ↦ inl (
                (last.0, out.1 ++ last.1, last.2),
                run_cons w poll polls out last going e e',
                v'',
                t' ∙ t ∙ same.targets,
                c' ∙ c ∙ same.config,
              )
              | inr (without, e') ↦ inr (
                inr without,
                run_error w poll polls out _ going e e'
                    ∙ ap (λ k. err (file_not_found_error k.docker_bin)) (c ∙ same.config),
              )
            ]
      ]
    ]

    run-stopped :
        (w : RecoveryWatcher Float) (polls : List (Poll J Float))
        → w.stop ≡ true
        → run fl hx w polls ≡ ok (w, [], true)
    unfolding run
    run-stopped w [] h = ap (λ b. ok (w, [], b)) h
    run-stopped w (poll ∷ polls) h = ground arith

    run_step :
        (w : RecoveryWatcher Float) (p : Poll J Float)
        (out : RecoveryWatcher Float × List (Action Float)) (polls : List (Poll J Float))
        → w.stop ≡ false
        → tick fl hx w p ≡ ok out
        → run fl hx w (p ∷ polls) ≡ extend out.1 (run fl hx (stop_if p.stop_requested out.0) polls)
    unfolding run
    run_step w p out polls going e = rw (run, going, e) refl

    -- A stop that is requested during a cycle ends the loop behind it at the latest: whatever came before that cycle,
    -- the run is over, and it is the same run, with the same actions and the same exception if there is one, whatever
    -- the later cycles would have met.
    pub run-request_stop :
        (w : RecoveryWatcher Float) (before : List (Poll J Float)) (poll : Poll J Float)
        (later : List (Poll J Float))
        → poll.stop_requested ≡ true
        → (run fl hx w (before ++ poll ∷ later) ≡ run fl hx w (before ++ poll ∷ []))
          × IsOver (run fl hx w (before ++ poll ∷ later))
    unfolding run request_stop
    run-request_stop w [] poll later requested = elim (Bool-cases w.stop) [
      | inl stopped ↦ rw stopped (refl, refl)
      | inr going ↦ elim (Result-cases (tick fl hx w poll)) [
        | inr (exc, e) ↦ rw (run, going, e) (refl, tt)
        | inl (out, e) ↦
            let halt = λ (qs : List (Poll J Float)). run-stopped (request_stop out.0) qs refl in
            rw (run, going, e, requested, halt later) (refl, refl)
      ]
    ]
    run-request_stop w (p ∷ ps) poll later requested = elim (Bool-cases w.stop) [
      | inl stopped ↦ rw stopped (refl, refl)
      | inr going ↦ elim (Result-cases (tick fl hx w p)) [
        | inr (exc, e) ↦ rw (run, going, e) (refl, tt)
        | inl (out, e) ↦
            let ih = run-request_stop (stop_if p.stop_requested out.0) ps poll later requested in
            let step = λ (qs : List (Poll J Float)). run_step w p out qs going e in
            (
              step (ps ++ poll ∷ later) ∙ ap (extend out.1) ih.0 ∙ sym (step (ps ++ poll ∷ [])),
              rw (step (ps ++ poll ∷ later)) (
                  extend-IsOver out.1
                    (run fl hx (stop_if p.stop_requested out.0) (ps ++ poll ∷ later)) ih.1),
            )
      ]
    ]
