-- ===== src/Orchestration/Health/Laws.antt =====
-- orchestration/health_check.py: the results stand for their targets, and the exit code tells the truth.
use cloud_microservices.Prelude.{
  String, ◌≡◌, refl, Bool, true, false, ◌&&◌, List, [], ◌∷◌, map, arith, ok, err, all,
  if◌then◌else◌, inl, inr,
}
use cloud_microservices.Http.{Exchange, Httpx, checked}
use cloud_microservices.Shared.Env.{Env}
use cloud_microservices.Shared.Logging.{unknown_level}
use cloud_microservices.Shared.Logging.Levels.{can_log, configure_logging-can_log}
use cloud_microservices.Orchestration.Targets.{ServiceTarget, default_targets}
use cloud_microservices.Orchestration.Health.{
  HealthResult, probe_one, probe_all, all_ok_from, amain,
}

-- whether a service answers its probe with a status that does not raise
abbrev pub is_healthy : {J : Type 0} → Httpx → (String → Exchange J) → ServiceTarget → Bool
is_healthy hx get t = elim (checked hx (get t.health_url)) [ ok _ ↦ true | err _ ↦ false ]

module _ {J : Type 0} (hx : Httpx) (get : String → Exchange J) where
  pub target-probe_one : (t : ServiceTarget) → (probe_one hx get t).target ≡ t
  unfolding probe_one
  target-probe_one t = ground arith

  pub ok-probe_one : (t : ServiceTarget) → (probe_one hx get t).ok ≡ is_healthy hx get t
  unfolding probe_one
  ok-probe_one t = ground arith

  -- one result for each target, in the order of the targets
  pub targets-probe_all : (ts : List ServiceTarget) → map (λ r. r.target) (probe_all hx ts get) ≡ ts
  unfolding probe_all
  targets-probe_all [] = refl
  targets-probe_all (t ∷ ts) = rw (target-probe_one t, targets-probe_all ts)

  all_ok_from-all :
      (b : Bool) (rs : List HealthResult) → all_ok_from b rs ≡ (b && all (λ r. r.ok) rs)
  unfolding all_ok_from
  all_ok_from-all b [] = ground arith
  all_ok_from-all b (r ∷ rs) = rw (all_ok_from-all (b && r.ok) rs) (ground arith)

  pub all-probe_all :
      (ts : List ServiceTarget) → all (λ r. r.ok) (probe_all hx ts get) ≡ all (is_healthy hx get) ts
  unfolding probe_all
  all-probe_all [] = refl
  all-probe_all (t ∷ ts) = rw (ok-probe_one t, all-probe_all ts) refl

  -- The command exits with 0 exactly when each of the five default services answers its probe with a
  -- status that does not raise, and otherwise with 1; where the logging cannot be set up it raises that error.
  pub amain_lem :
      (env : Env)
      → amain hx env get ≡ (
          if can_log env
          then ok (if all (is_healthy hx get) (default_targets env) then 0 else 1)
          else err unknown_level)
  unfolding amain
  amain_lem env = elim (configure_logging-can_log {J = String} (λ s. s) env "health-check" refl) [
    | inl (can, logger, e) ↦
        rw
          (
            amain,
            can,
            e,
            all_ok_from-all true (probe_all hx (default_targets env) get),
            all-probe_all (default_targets env),
          )
          refl
    | inr (cannot, e) ↦ rw (amain, cannot, e) refl
  ]
