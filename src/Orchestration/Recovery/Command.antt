-- ===== src/Orchestration/Recovery/Command.antt =====
-- orchestration/recovery.py: the command `python -m orchestration.recovery`, its `_amain`. SIGINT and
-- SIGTERM call `request_stop`, which the poll cycles say.
use cloud_microservices.Prelude.{
  String, Bool, true, false, Option, none, some, List, ℤ, pos, Result, ok, err,
}
use cloud_microservices.Floats.{Floats}
use cloud_microservices.Http.{Httpx}
use cloud_microservices.Shared.Env.{Env}
use cloud_microservices.Orchestration.Targets.{default_targets}
use cloud_microservices.Orchestration.Recovery.{
  RecoveryWatcher, Action, Poll, WatchError, logging_error, from_env, init, run,
}
use cloud_microservices.Shared.Logging.{configure_logging}

-- the exit code, which there is once the loop has ended, and what the watcher has done
abbrev pub exit_of :
    {F : Type 0}
    → Result WatchError (RecoveryWatcher F × List (Action F) × Bool)
    → Result WatchError (Option ℤ × List (Action F))
exit_of (ok (watcher, actions, true)) = ok (some (pos 0), actions)
exit_of (ok (watcher, actions, false)) = ok (none, actions)
exit_of (err e) = err e

module _ (fl : Floats) {J : Type 0} (hx : Httpx) where
  open fl use {Float}

  -- `_amain`, as far as the given cycles reach
  unfoldable pub amain :
      Env → Option String → List (Poll J Float) → Result WatchError (Option ℤ × List (Action Float))
  amain env which polls = elim (configure_logging (λ s. s) env "recovery") [
    | err e ↦ err (logging_error e)
    | ok logger ↦ exit_of (run fl hx (init (default_targets env) (from_env fl env which)) polls)
  ]
