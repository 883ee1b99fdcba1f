-- ===== src/Tests/Operations.antt =====
-- The middleware and the orchestration at concrete inputs.
use cloud_microservices.Prelude.{
  inr, ℕ, String, ◌≡◌, ◌↔◌, refl, Bool, true, not, ◌&&◌, none, some, [], ◌∷◌, ◌++◌, ok, pos, Result,
  if◌then◌else◌, arith, err, all,
}
use cloud_microservices.Http.{Exchange, checked}
use cloud_microservices.Shared.Env.{Env}
use cloud_microservices.Shared.Metrics.{new_metrics}
use cloud_microservices.Shared.App as App
use cloud_microservices.Shared.App.{
  Reply, ServiceApp, LogLine, request_completed, AppError, middleware,
}
use cloud_microservices.Shared.App.Counters.{Served, middleware_answers}
use cloud_microservices.Orchestration.Targets.{default_targets}
use cloud_microservices.Orchestration.Health
use cloud_microservices.Orchestration.Health.Laws.{is_healthy, amain_lem}
use cloud_microservices.Orchestration.Recovery.{Attempt, logging_error}
use cloud_microservices.Orchestration.Orchestrator
use cloud_microservices.Orchestration.Orchestrator.{
  OrchestratorOptions, World, Exit, exited, raised, watching, is_zero, wait_until_healthy,
}
use cloud_microservices.Orchestration.Orchestrator.Bare.{shown, bare, main-recovery}
use cloud_microservices.Orchestration.Recovery.Command
use cloud_microservices.Orchestration.Orchestrator.Wait.{is_up, Waited}
use cloud_microservices.Orchestration.Orchestrator.Lifecycle.{
  opened, closed, WatchEnds, amain_exit_code,
}
use cloud_microservices.Orchestration.Orchestrator.Teardown.{TakenDown, amain-TakenDown}
use cloud_microservices.Shared.Logging.{
  unknown_level, level_from_env, configure_logging, attribute, is_upper,
}
use cloud_microservices.Shared.Logging.Levels.{can_log}
use cloud_microservices.CommandLine as CommandLine
use cloud_microservices.CommandLine.{parsed}
use cloud_microservices.Prelude.Dict as Dict
use cloud_microservices.Tests.Data.{naturals, httpx, unreachable}

abbrev app : ServiceApp ℕ
app = record {
  metrics = new_metrics naturals "service-b" 0;
  context = none;
  min_level = 20;
  logs = [];
}

abbrev served : Served ℕ ℕ
served = record {
  request = record { path = "/store"; method = "GET" };
  outcome = App.raised "KeyError";
  duration_ms = 8;
}

-- how the middleware ends
abbrev ended : Result AppError (Reply ℕ) × ServiceApp ℕ
ended = middleware naturals 0 served.request served.outcome 8 app

middleware_answers_example :
    (ended.0 ≡ ok (record { status_code = 500; body = 0 }))
    × ((ended.1.context ≡ none) ↔ ((r : Reply ℕ) × (ended.0 ≡ ok r)))
    × (ended.1.logs
        ≡ App.unhandled_exception (some served.request) "KeyError"
          ∷ request_completed (some served.request) 500 8 true
          ∷ [])
middleware_answers_example = middleware_answers naturals 0 served app

abbrev no_env : Env
no_env name = none

abbrev dead : String → Exchange ℕ
dead url = unreachable

amain_lem_example : Health.amain httpx no_env dead ≡ (
    if can_log no_env
    then ok (if all (is_healthy httpx dead) (default_targets no_env) then 0 else 1)
    else err unknown_level)
amain_lem_example = amain_lem httpx dead no_env

abbrev opts : OrchestratorOptions
opts = record { bring_up = true; tear_down = true }

abbrev start_works : String → Attempt ℕ
start_works container = record {
  launched = true;
  detected = 10;
  recovered = 20;
  duration = 1;
  returncode = pos 0;
}

abbrev world : World ℕ ℕ
world = record {
  env = no_env;
  which = none;
  up = record {
    launched = true;
    output = "Container cm-service-a Started " ∷ "" ∷ [];
    overrun = none;
    returncode = pos 0;
  };
  down = record {
    launched = true;
    output = "Container cm-service-a Removed" ∷ [];
    overrun = none;
    returncode = pos 0;
  };
  get = λ n. dead;
  polls = [];
}

amain_exit_code_example :
    (found : Bool) × (exit : Exit) × Waited
      (is_up httpx (default_targets no_env) world.get)
      1
      30
      found
    × WatchEnds naturals httpx opts world exit
    × ((Orchestrator.amain naturals httpx opts world).0 ≡ (
        if not (can_log no_env)
        then raised (logging_error unknown_level)
        else opened true world.up
            (if not found && true then closed true world.down (exited (pos 1)) else exit)))
amain_exit_code_example = amain_exit_code naturals httpx opts world

exits : (Orchestrator.amain naturals httpx opts world).0 ≡ exited (pos 1)
unfolding Orchestrator.amain Orchestrator.lifecycle Orchestrator.run_compose Orchestrator.close_down
    configure_logging level_from_env attribute is_upper Orchestrator.supervise wait_until_healthy
    Orchestrator.wait_from Orchestrator.failed_names Health.probe_all Health.probe_one
    default_targets checked
exits = refl

amain-TakenDown_example : TakenDown true world.down (Orchestrator.amain naturals httpx opts world).1
amain-TakenDown_example =
    amain-TakenDown naturals httpx opts world refl (inr (refl, refl)) refl
      (λ h. let e = exits in absurd (ground arith))

bare_argv : Orchestrator.parse_args ("--no-down" ∷ "--no-up" ∷ []) ≡ parsed bare
unfolding Orchestrator.parse_args CommandLine.parse CommandLine.classify_all CommandLine.consume
    CommandLine.is_given Dict.get
bare_argv = refl

main-recovery_example :
    let polled = wait_until_healthy naturals httpx (default_targets no_env) world.get 30 2 in
    let recovery = shown (Command.amain naturals httpx no_env none world.polls) in
    Orchestrator.main naturals httpx ("--no-down" ∷ "--no-up" ∷ []) world
    ≡ (recovery.0, (if can_log no_env then polled.1 else []) ++ recovery.1)
main-recovery_example = main-recovery naturals httpx ("--no-down" ∷ "--no-up" ∷ []) world bare_argv
