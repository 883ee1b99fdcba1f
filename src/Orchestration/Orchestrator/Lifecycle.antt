-- ===== src/Orchestration/Orchestrator/Lifecycle.antt =====
-- orchestration/orchestrator.py: the exit code.
use cloud_microservices.Prelude.{
  Option, none, some, String, ◌≡◌, refl, ap, ◌∙◌, ◌⊎◌, inl, inr, Bool, true, false, not, ◌&&◌, List,
  [], arith, pos, if◌then◌else◌, Result, ok, err, Bool-cases,
}
use cloud_microservices.Floats.{Floats}
use cloud_microservices.Http.{Httpx}
use cloud_microservices.Orchestration.Recovery
use cloud_microservices.Shared.Logging.{unknown_level}
use cloud_microservices.Shared.Logging.Levels.{can_log, configure_logging-can_log}
use cloud_microservices.Orchestration.Targets.{ServiceTarget, default_targets}
use cloud_microservices.Orchestration.Recovery.{
  Action, WatchError, logging_error, RecoveryWatcher, from_env, init, run,
}
use cloud_microservices.Orchestration.Recovery.Runs.{SometimesHasNoDocker, run-IsWatching}
use cloud_microservices.Orchestration.Recovery.Start.{init-IsWatching}
use cloud_microservices.Orchestration.Orchestrator.{
  OrchestratorOptions, Effect, Exit, exited, raised, watching, World, is_zero, Compose,
  ComposeError, file_not_found_error, value_error, compose_raised, close_down, run_compose,
  watched_by, wait_until_healthy, watch, supervise, lifecycle, amain,
}
use cloud_microservices.Orchestration.Orchestrator.Wait.{is_up, Waited, wait_until_healthy_lem}

-- what a `docker compose` command raises, if it does
abbrev pub compose_fails : Compose → Option ComposeError
compose_fails c =
    if not c.launched
    then some file_not_found_error
    else elim c.overrun [ none ↦ none | some message ↦ some (value_error message) ]

-- an end behind the removal of the stack, if that is asked for
abbrev pub closed : Bool → Compose → Exit → Exit
closed tear_down down exit =
    if tear_down
    then elim (compose_fails down) [ none ↦ exit | some e ↦ compose_raised e ]
    else exit

-- an end behind the start of the stack, if that is asked for
abbrev pub opened : Bool → Compose → Exit → Exit
opened bring_up up exit =
    if bring_up
    then elim (compose_fails up) [
      | none ↦ if is_zero up.returncode then exit else exited up.returncode
      | some e ↦ compose_raised e
    ]
    else exit

exit_of_close_down :
    (F : Type 0) (tear_down : Bool) (down : Compose) (exit : Exit)
    → (close_down {F = F} tear_down down exit).0 ≡ closed tear_down down exit
unfolding close_down run_compose
exit_of_close_down F tear_down down exit = ground arith

module _ (fl : Floats) {J : Type 0} (hx : Httpx) where
  open fl use {Float}

  module _ (opts : OrchestratorOptions) (world : World J Float) where
    abbrev pub targets : List ServiceTarget
    targets = default_targets world.env

    -- the run of a new watcher
    abbrev pub watcher_run : Result WatchError (RecoveryWatcher Float × List (Action Float) × Bool)
    watcher_run = run fl hx (init targets (from_env fl world.env world.which)) world.polls

    -- the wait of 30 polls, 2.0 seconds apart
    abbrev pub waited : Bool × List (Effect Float)
    waited = wait_until_healthy fl hx targets world.get 30 (fl.decimal 20 1)

    exit_of_watch :
        (out : RecoveryWatcher Float × List (Action Float) × Bool)
        → watcher_run ≡ ok out
        → (watch fl hx opts world).0
          ≡ (if out.2 then closed opts.tear_down world.down (exited (pos 0)) else watching)
    unfolding watch
    exit_of_watch (w, actions, true) e =
        ap (λ r. (watched_by opts.tear_down world.down r).0) e
        ∙ exit_of_close_down Float opts.tear_down world.down (exited (pos 0))
    exit_of_watch (w, actions, false) e = ap (λ r. (watched_by opts.tear_down world.down r).0) e

    pub exit_of_supervise : (supervise fl hx opts world).0 ≡ (
        if not waited.0 && opts.tear_down
        then closed opts.tear_down world.down (exited (pos 1))
        else (watch fl hx opts world).0)
    unfolding supervise
    exit_of_supervise = elim (Bool-cases (not waited.0 && opts.tear_down)) [
      | inl gone ↦
          let asked : opts.tear_down ≡ true = ground arith in
          let closes = exit_of_close_down Float true world.down (exited (pos 1)) in
          rw gone (rw asked closes)
      | inr stays ↦ rw stays refl
    ]

    pub exit_of_lifecycle :
        (lifecycle fl hx opts world).0
        ≡ opened opts.bring_up world.up (supervise fl hx opts world).0
    unfolding lifecycle run_compose
    exit_of_lifecycle = ground arith

    -- how `_amain` ends once it watches
    abbrev pub WatchEnds : Exit → Type 0
    WatchEnds exit =
        ((out : RecoveryWatcher Float × List (Action Float) × Bool) × (watcher_run ≡ ok out)
          × (exit
              ≡ (if out.2 then closed opts.tear_down world.down (exited (pos 0)) else watching)))
        ⊎ ((binary : String) × SometimesHasNoDocker fl hx world.polls
            × (watcher_run ≡ err (Recovery.file_not_found_error binary))
            × (exit
                ≡ closed opts.tear_down world.down (raised (Recovery.file_not_found_error binary))))

    watch-WatchEnds : WatchEnds (watch fl hx opts world).0
    watch-WatchEnds =
        let config = from_env fl world.env world.which in
        let w = init targets config in
        elim (run-IsWatching fl hx w world.polls (init-IsWatching targets config)) [
          | inl (out, e, _, _, _) ↦ inl (out, e, exit_of_watch out e)
          | inr (without, e) ↦ inr (
            w.config.docker_bin,
            without,
            e,
            unfold watch in
                (ap (λ r. (watched_by opts.tear_down world.down r).0) e
                  ∙ exit_of_close_down Float opts.tear_down world.down
                      (raised (Recovery.file_not_found_error w.config.docker_bin))),
          )
        ]

    -- `_amain` is its lifecycle where the logging can be set up, and otherwise raises.
    pub amain-lifecycle : amain fl hx opts world ≡ (
        if can_log world.env
        then lifecycle fl hx opts world
        else (raised (logging_error unknown_level), []))
    unfolding amain
    amain-lifecycle =
        elim (configure_logging-can_log {J = String} (λ s. s) world.env "orchestrator" refl) [
          | inl (can, logger, e) ↦ rw (amain, can, e) refl
          | inr (cannot, e) ↦ rw (amain, cannot, e) refl
        ]

    exit_of_amain : (amain fl hx opts world).0 ≡ (
        if not (can_log world.env)
        then raised (logging_error unknown_level)
        else opened opts.bring_up world.up (
            if not waited.0 && opts.tear_down
            then closed opts.tear_down world.down (exited (pos 1))
            else (watch fl hx opts world).0))
    exit_of_amain = elim (Bool-cases (can_log world.env)) [
      | inl can ↦
          rw (amain-lifecycle, can)
            (exit_of_lifecycle ∙ ap (opened opts.bring_up world.up) exit_of_supervise)
      | inr cannot ↦ rw (amain-lifecycle, cannot) refl
    ]

    -- The end of the command. Where the logging cannot be set up, that error; else that of `docker compose up`, if it is
    -- run and raises or exits with another code than 0; else 1 if no poll of the 30 finds the whole stack up and the
    -- stack is to be taken down; else 0 once the watcher's loop has ended. The watcher raises no `KeyError`, whatever its
    -- probes and its `docker start` commands meet; where docker cannot be started in one of its cycles it may raise
    -- `FileNotFoundError`, which is then how the command ends. What `docker compose down` raises, if it is run, takes
    -- the place of the last three. A command of `docker compose` raises where it cannot be started and for a line over
    -- the limit of the stream.
    pub amain_exit_code :
        (found : Bool) × (exit : Exit) × Waited (is_up hx targets world.get) 1 30 found
        × WatchEnds exit
        × ((amain fl hx opts world).0 ≡ (
            if not (can_log world.env)
            then raised (logging_error unknown_level)
            else opened opts.bring_up world.up (
                if not found && opts.tear_down
                then closed opts.tear_down world.down (exited (pos 1))
                else exit)))
    amain_exit_code = (
      waited.0,
      (watch fl hx opts world).0,
      wait_until_healthy_lem fl hx targets world.get (fl.decimal 20 1) 30,
      watch-WatchEnds,
      exit_of_amain,
    )
