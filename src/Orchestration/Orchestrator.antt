-- ===== src/Orchestration/Orchestrator.antt =====
-- orchestration/orchestrator.py: the lifecycle of the stack around the watcher. What `docker compose`
-- exits with, what each poll meets and the watcher's cycles are arguments.
pub mod Wait
pub mod Lifecycle
pub mod Teardown
pub mod Bare
use cloud_microservices.Prelude.{
  ℕ, zero, suc, ◌+◌, String, Bool, true, false, not, ◌&&◌, ◌||◌, ◌==◌, Option, none, some, List, [],
  ◌∷◌, ◌++◌, map, filter, is_empty, rstrip, ℤ, pos, if◌then◌else◌, Result, ok, err,
}
use cloud_microservices.Prelude.Dict.{Dict}
use cloud_microservices.CommandLine.{
  Kind, flag, help, Parsed, map_parsed, Row, parse, is_given, parsed, helped, refused, list_valued,
}
use cloud_microservices.Floats.{Floats}
use cloud_microservices.Http.{Exchange, Httpx}
use cloud_microservices.Shared.Env.{Env}
use cloud_microservices.Orchestration.Targets.{ServiceTarget, default_targets}
use cloud_microservices.Orchestration.Health.{HealthResult, probe_all}
use cloud_microservices.Orchestration.Recovery.{
  Action, RecoveryWatcher, Poll, WatchError, logging_error, from_env, init, run,
}
use cloud_microservices.Shared.Logging.{configure_logging}

pub record OrchestratorOptions : Type 0 where
  pub bring_up : Bool
  pub tear_down : Bool

abbrev flags : Dict Kind
flags = ("-h", help) ∷ ("--help", help) ∷ ("--no-up", flag) ∷ ("--no-down", flag) ∷ []

abbrev options_of : List Row → OrchestratorOptions
options_of rows = record {
  bring_up = not (is_given "--no-up" rows);
  tear_down = not (is_given "--no-down" rows);
}

-- `_parse_args`
unfoldable pub parse_args : List String → Parsed OrchestratorOptions
parse_args argv = map_parsed options_of (parse flags argv)

-- what the orchestrator does, in order
pub data Effect (F : Type 0) : Type 0 where
  docker_compose : List String → Effect F
  -- a line of the output of `docker compose`, and the arguments that it is logged with
  compose_line : List String → String → Effect F
  stack_healthy : ℕ → Effect F
  stack_unhealthy_waiting : ℕ → List String → Effect F
  slept : F → Effect F
  stack_failed_to_become_healthy : ℕ → Effect F
  watched : List (Action F) → Effect F

-- What `_docker_compose` raises: the docker binary cannot be started, or a line of the output is over the limit of the
-- stream.
pub data ComposeError : Type 0 where
  file_not_found_error : ComposeError
  value_error : String → ComposeError

-- how `_amain` ends; `watching` where the given cycles of the watcher do not end its loop
pub data Exit : Type 0 where
  exited : ℤ → Exit
  raised : WatchError → Exit
  compose_raised : ComposeError → Exit
  watching : Exit

-- What one `docker compose` command meets: whether the binary can be started, the lines that are read, the
-- `ValueError` of a line over the limit of the stream, if one comes behind them, and the exit code.
pub record Compose : Type 0 where
  pub launched : Bool
  pub output : List String
  pub overrun : Option String
  pub returncode : ℤ

-- What the run meets: `docker compose up` and `down`, the health
-- polls by their number, the cycles of the watcher, and `shutil.which("docker")`.
pub record World (J F : Type 0) : Type 0 where
  pub env : Env
  pub which : Option String
  pub up : Compose
  pub down : Compose
  pub get : ℕ → String → Exchange J
  pub polls : List (Poll J F)

-- `[r for r in results if not r.ok]`, by the names
unfoldable pub failed_names : List HealthResult → List String
failed_names [] = []
failed_names (r ∷ rs) = let rest = failed_names rs in if r.ok then rest else r.target.name ∷ rest

abbrev pub is_nil : {A : Type 0} → List A → Bool
is_nil [] = true
is_nil (x ∷ xs) = false

abbrev pub is_zero : ℤ → Bool
is_zero (pos zero) = true
is_zero _ = false

-- the lines that `_docker_compose` logs: they lose the space at their end, and empty ones are left out
abbrev pub logged_lines : List String → List String
logged_lines output = filter (λ line. not (is_empty line)) (map rstrip output)

-- `_docker_compose`: the exit code or the exception, and the command with its output as it is logged
unfoldable pub run_compose :
    {F : Type 0} → List String → Compose → Result ComposeError ℤ × List (Effect F)
run_compose args c =
    if c.launched
    then (
      (elim c.overrun [ none ↦ ok c.returncode | some message ↦ err (value_error message) ]),
      docker_compose args ∷ map (compose_line args) (logged_lines c.output),
    )
    else (err file_not_found_error, [])

-- `await _docker_compose(["down"], logger=logger)`, if it is asked for, before `_amain` ends as given
unfoldable pub close_down : {F : Type 0} → Bool → Compose → Exit → Exit × List (Effect F)
close_down tear_down down exit =
    let (result, effects) = run_compose ("down" ∷ []) down in
    if tear_down
    then ((elim result [ ok code ↦ exit | err e ↦ compose_raised e ]), effects)
    else (exit, [])

-- effects before an end
abbrev pub preceded :
    {F : Type 0} → List (Effect F) → Exit × List (Effect F) → Exit × List (Effect F)
preceded before (exit, effects) = (exit, before ++ effects)

-- the `try` statement around the watcher's run; what a run that raises has done before is left out
abbrev pub watched_by :
    {F : Type 0}
    → Bool
    → Compose
    → Result WatchError (RecoveryWatcher F × List (Action F) × Bool)
    → Exit × List (Effect F)
watched_by tear_down down (err e) = close_down tear_down down (raised e)
watched_by tear_down down (ok (watcher, actions, true)) =
    preceded (watched actions ∷ []) (close_down tear_down down (exited (pos 0)))
watched_by tear_down down (ok (watcher, actions, false)) = (watching, watched actions ∷ [])

module _ (fl : Floats) {J : Type 0} (hx : Httpx) where
  open fl use {Float}

  -- the loop of `_wait_until_healthy`: `left` polls are left, the next one is number `attempt`
  unfoldable pub wait_from :
      List ServiceTarget → (ℕ → String → Exchange J) → Float → ℕ → ℕ → Bool × List (Effect Float)
  wait_from targets get delay zero attempt = (false, [])
  wait_from targets get delay (suc left) attempt =
      let failed = failed_names (probe_all hx targets (get attempt)) in
      let rest = wait_from targets get delay left (attempt + 1) in
      if is_nil failed
      then (true, stack_healthy attempt ∷ [])
      else (rest.0, stack_unhealthy_waiting attempt failed ∷ slept delay ∷ rest.1)

  unfoldable pub wait_until_healthy :
      List ServiceTarget → (ℕ → String → Exchange J) → ℕ → Float → Bool × List (Effect Float)
  wait_until_healthy targets get attempts delay =
      let waited = wait_from targets get delay attempts 1 in
      if waited.0 then waited else (false, waited.1 ++ stack_failed_to_become_healthy attempts ∷ [])

  -- `_amain` from the watcher on
  unfoldable pub watch : OrchestratorOptions → World J Float → Exit × List (Effect Float)
  watch opts world =
      let watcher = init (default_targets world.env) (from_env fl world.env world.which) in
      watched_by opts.tear_down world.down (run fl hx watcher world.polls)

  -- `_amain` from the wait on
  unfoldable pub supervise : OrchestratorOptions → World J Float → Exit × List (Effect Float)
  supervise opts world =
      let waited = wait_until_healthy (default_targets world.env) world.get 30 (fl.decimal 20 1) in
      let rest = watch opts world in
      if not waited.0 && opts.tear_down
      then preceded waited.1 (close_down true world.down (exited (pos 1)))
      else preceded waited.1 rest

  -- `_amain` behind its logger
  unfoldable pub lifecycle : OrchestratorOptions → World J Float → Exit × List (Effect Float)
  lifecycle opts world =
      let up = run_compose ("up" ∷ "-d" ∷ "--build" ∷ []) world.up in
      let rest = supervise opts world in
      if opts.bring_up
      then elim up.0 [
        | err e ↦ (compose_raised e, up.1)
        | ok code ↦ if is_zero code then preceded up.1 rest else (exited code, up.1)
      ]
      else rest

  -- `_amain`
  unfoldable pub amain : OrchestratorOptions → World J Float → Exit × List (Effect Float)
  amain opts world = elim (configure_logging (λ s. s) world.env "orchestrator") [
    | err e ↦ (raised (logging_error e), [])
    | ok logger ↦ lifecycle opts world
  ]

  -- `main`, with the exit code of the `SystemExit` that argparse raises. No option takes a value, so that none is a list.
  unfoldable pub main : List String → World J Float → Exit × List (Effect Float)
  main argv world = elim (parse_args argv) [
    | parsed opts ↦ amain opts world
    | helped ↦ (exited (pos 0), [])
    | refused ↦ (exited (pos 2), [])
    | list_valued ↦ (exited (pos 2), [])
  ]
