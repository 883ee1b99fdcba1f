-- ===== src/Orchestration/Health.antt =====
-- orchestration/health_check.py: one probe, a concurrent probe of all, and the command's exit code.
-- `gather` returns the results in the order of the targets, whatever order the answers come in.
pub mod Laws
use cloud_microservices.Prelude.{
  ℕ, String, Bool, true, false, ◌&&◌, List, [], ◌∷◌, map, ok, err, if◌then◌else◌, Result, ◌>>=◌,
}
use cloud_microservices.Http.{Exchange, Httpx, checked}
use cloud_microservices.Shared.Env.{Env}
use cloud_microservices.Shared.Logging.{LoggingError, configure_logging}
use cloud_microservices.Orchestration.Targets.{ServiceTarget, default_targets}

pub record HealthResult : Type 0 where
  pub target : ServiceTarget
  pub ok : Bool
  pub detail : String

-- the loop that sets `all_ok`
all_ok_from : Bool → List HealthResult → Bool
all_ok_from all_ok [] = all_ok
all_ok_from all_ok (r ∷ rs) = all_ok_from (all_ok && r.ok) rs

module _ {J : Type 0} (hx : Httpx) where
  unfoldable pub probe_one : (String → Exchange J) → ServiceTarget → HealthResult
  probe_one get target = elim (checked hx (get target.health_url)) [
    | ok response ↦ record { target = target; ok = true; detail = "ok" }
    | err exc ↦ record { target = target; ok = false; detail = hx.describe exc }
  ]

  -- `get` is what a request to a URL meets during this round of probes.
  unfoldable pub probe_all : List ServiceTarget → (String → Exchange J) → List HealthResult
  probe_all targets get = map (probe_one get) targets

  -- `_amain`: the exit code
  unfoldable pub amain : Env → (String → Exchange J) → Result LoggingError ℕ
  unfolding all_ok_from
  amain env get = do
    logger ← configure_logging {J = String} (λ s. s) env "health-check"
    let results = probe_all (default_targets env) get
    ok (if all_ok_from true results then 0 else 1)
