-- ===== src/Orchestration/Orchestrator/Bare.antt =====
-- orchestration/orchestrator.py beside orchestration/recovery.py: a run that leaves the stack alone.
use cloud_microservices.Prelude.{
  ◌≡◌, refl, Bool, true, false, Option, none, some, List, [], ◌∷◌, ◌++◌, String, arith, ℤ, Result,
  if◌then◌else◌, Bool-cases, inl, inr, ok, err,
}
use cloud_microservices.Floats.{Floats}
use cloud_microservices.Http.{Httpx}
use cloud_microservices.Orchestration.Recovery.{RecoveryWatcher, Action, WatchError, logging_error}
use cloud_microservices.Orchestration.Recovery.Command
use cloud_microservices.Orchestration.Targets.{default_targets}
use cloud_microservices.Orchestration.Orchestrator.{
  OrchestratorOptions, Effect, watched, Exit, exited, raised, watching, World, Compose, close_down,
  watched_by, wait_until_healthy, watch, supervise, lifecycle, amain, parse_args, main,
}
use cloud_microservices.CommandLine.{parsed}
use cloud_microservices.Shared.Logging.{unknown_level}
use cloud_microservices.Shared.Logging.Levels.{can_log, configure_logging-can_log}
use cloud_microservices.Orchestration.Orchestrator.Lifecycle.{watcher_run, waited, amain-lifecycle}

-- how the orchestrator shows what the recovery command does
abbrev pub shown :
    {F : Type 0} → Result WatchError (Option ℤ × List (Action F)) → Exit × List (Effect F)
shown (ok (some code, actions)) = (exited code, watched actions ∷ [])
shown (ok (none, actions)) = (watching, watched actions ∷ [])
shown (err e) = (raised e, [])

watched_by-shown :
    {F : Type 0} (down : Compose)
    (r : Result WatchError (RecoveryWatcher F × List (Action F) × Bool))
    → watched_by false down r ≡ shown (Command.exit_of r)
unfolding close_down
watched_by-shown down (ok (watcher, actions, true)) = refl
watched_by-shown down (ok (watcher, actions, false)) = refl
watched_by-shown down (err e) = refl

abbrev pub bare : OrchestratorOptions
bare = record { bring_up = false; tear_down = false }

module _ (fl : Floats) {J : Type 0} (hx : Httpx) where
  open fl use {Float}

  -- the recovery command, whose logging can be set up
  recovery_run : World J Float → Result WatchError (Option ℤ × List (Action Float))
  recovery_run world = Command.exit_of (watcher_run fl hx bare world)

  recovery_run_lem :
      (world : World J Float)
      → Command.amain fl hx world.env world.which world.polls
        ≡ (if can_log world.env then recovery_run world else err (logging_error unknown_level))
  unfolding Command.amain recovery_run
  recovery_run_lem world =
      elim (configure_logging-can_log {J = String} (λ s. s) world.env "recovery" refl) [
        | inl (can, logger, e) ↦ rw (Command.amain, can, e) refl
        | inr (cannot, e) ↦ rw (Command.amain, cannot, e) refl
      ]

  lifecycle-shown :
      (world : World J Float)
      → let recovery = shown (recovery_run world) in
        lifecycle fl hx bare world ≡ (recovery.0, (waited fl hx bare world).1 ++ recovery.1)
  unfolding lifecycle supervise watch recovery_run
  lifecycle-shown world =
      let w = watched_by-shown world.down (watcher_run fl hx bare world) in ground (arith, w)

  main_lem :
      (argv : List String) (opts : OrchestratorOptions) (world : World J Float)
      → parse_args argv ≡ parsed opts
      → main fl hx argv world ≡ amain fl hx opts world
  unfolding main amain
  main_lem argv opts world e = rw (main, e) refl

  -- A command line that is read as --no-up and --no-down makes the orchestrator its wait for the stack, whether
  -- that comes up or not, and then the recovery command, with the same exit code, the same exception and the
  -- same actions; where the logging cannot be set up it does not wait, and fails as that command does.
  pub main-recovery :
      (argv : List String) (world : World J Float)
      → parse_args argv ≡ parsed bare
      → let polled =
          wait_until_healthy fl hx (default_targets world.env) world.get 30 (fl.decimal 20 1) in
        let recovery = shown (Command.amain fl hx world.env world.which world.polls) in
        main fl hx argv world
        ≡ (recovery.0, (if can_log world.env then polled.1 else []) ++ recovery.1)
  main-recovery argv world e = elim (Bool-cases (can_log world.env)) [
    | inl can ↦
        rw
          (
            main_lem argv bare world e,
            recovery_run_lem world,
            amain-lifecycle fl hx bare world,
            can,
          )
          (lifecycle-shown world)
    | inr cannot ↦
        rw
          (
            main_lem argv bare world e,
            recovery_run_lem world,
            amain-lifecycle fl hx bare world,
            cannot,
          )
          refl
  ]
