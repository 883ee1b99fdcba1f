-- ===== src/Monitoring/MetricsCollector/Main/Writes.antt =====
-- monitoring/metrics_collector.py: how `_amain` ends, and what the files hold then.

use cloud_microservices.Prelude.{String, ◌≡◌, ◌≢◌, ◌⊎◌, false, List, []}
use cloud_microservices.Http.{Httpx}
use cloud_microservices.Shared.Env.{Env}
use cloud_microservices.Monitoring.MetricsCollector.{Snapshot, Files, Round, os_error}
use cloud_microservices.Monitoring.MetricsCollector.Arguments.{CollectorOptions}
use cloud_microservices.Monitoring.MetricsCollector.Laws.{Keeps, Wrote}
use cloud_microservices.Monitoring.MetricsCollector.Main.{raised, Exit, scraping}

module _ {J : Type 0} (hx : Httpx) (dumps_indent dumps : Snapshot J → String) where
  -- a round at a time is over with `--once`
  abbrev pub EndsOnce : {F : Type 0} → CollectorOptions F → List (Round J) → Exit → Type 0
  EndsOnce opts rounds exit = (opts.one_shot ≡ false) ⊎ (rounds ≡ []) ⊎ (exit ≢ scraping)

  -- The files hold what the snapshots tell; or `OSError` has ended the command, in a round whose snapshot is none of them.
  abbrev pub Holds : Files → Exit × Files × List (Snapshot J) → Type 0
  Holds files run =
      Wrote hx dumps_indent dumps files run
      ⊎ ((part : String) × (run.0 ≡ raised os_error) × Keeps hx dumps_indent dumps part files run)
