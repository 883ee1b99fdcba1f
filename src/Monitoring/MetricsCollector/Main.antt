-- ===== src/Monitoring/MetricsCollector/Main.antt =====
-- monitoring/metrics_collector.py: `_amain`, from its logger to its exit code. SIGINT and SIGTERM set the stop, which
-- the rounds say.
pub mod Writes
use cloud_microservices.Prelude.{String, Bool, true, false, List, [], ℤ, pos, Result, ok, err}
use cloud_microservices.Http.{Httpx}
use cloud_microservices.Shared.Env.{Env}
use cloud_microservices.Shared.Logging.{LoggingError, configure_logging}
use cloud_microservices.Orchestration.Targets.{default_targets}
use cloud_microservices.Monitoring.MetricsCollector.{Snapshot, Files, CollectError, Round, collect}
use cloud_microservices.Monitoring.MetricsCollector.Arguments.{CollectorOptions}

pub data Exit : Type 0 where
  exited : ℤ → Exit
  raised : CollectError → Exit
  -- by `configure_logging`
  unlogged : LoggingError → Exit
  -- the given rounds do not end the loop
  scraping : Exit

abbrev pub exit_of : Result CollectError Bool → Exit
exit_of (ok true) = exited (pos 0)
exit_of (ok false) = scraping
exit_of (err e) = raised e

module _ {J : Type 0} (hx : Httpx) (dumps_indent dumps : Snapshot J → String) where
  -- `_amain`; `files` are the texts at the two paths of the options
  unfoldable pub amain :
      {F : Type 0}
      → Env
      → CollectorOptions F
      → List (Round J)
      → Files
      → Exit × Files × List (Snapshot J)
  amain env opts rounds files =
      elim (configure_logging {J = String} (λ s. s) env "metrics-collector") [
        | err e ↦ (unlogged e, files, [])
        | ok logger ↦
            let (outcome, files', snapshots) =
              collect hx dumps_indent dumps opts.one_shot (default_targets env) rounds files in
            (exit_of outcome, files', snapshots)
      ]
