-- ===== src/Orchestration/Recovery/Invariant.antt =====
-- orchestration/recovery.py: what holds of a watcher between two steps.
use cloud_microservices.Prelude.{
  ◌+◌, String, ◌≡◌, subst, ◌∙◌, Bool, true, false, ◌⊎◌, inl, inr, some, List, [], ◌∷◌, ◌++◌, arith,
  pos, leb_ℤ, ◌==◌, eq_iff, if◌then◌else◌, length, length-append, All, Bool-cases,
}
use cloud_microservices.Prelude.Dict
use cloud_microservices.Prelude.Dict.{Dict, get-put, is_some}
use cloud_microservices.Floats.{Floats}
use cloud_microservices.Orchestration.Targets.{ServiceTarget}
use cloud_microservices.Orchestration.Health.{HealthResult}
use cloud_microservices.Orchestration.Recovery.{
  WatcherConfig, ServiceRuntime, RecoveryWatcher, Attempt, count_of, event_of, react,
}

-- The runtime under a name is that service's, its events are counted, and its failures have not
-- reached the threshold.
pub record IsSound {F : Type 0} (w : RecoveryWatcher F) (k : String) (rt : ServiceRuntime F)
    : Type 0 where
  pub named : rt.target.name ≡ k
  pub counted : count_of k w.recovery_count ≡ length rt.history
  pub below :
      (rt.consecutive_failures ≡ 0)
      ⊎ (leb_ℤ w.config.failure_threshold (pos rt.consecutive_failures) ≡ false)

abbrev pub Watches : {F : Type 0} → RecoveryWatcher F → ServiceTarget → Type 0
Watches w t = is_some (Dict.get t.name w.runtimes) ≡ true

-- Every service that is watched has a runtime, and every runtime is sound.
pub record IsWatching {F : Type 0} (w : RecoveryWatcher F) : Type 0 where
  pub every_target : All (Watches w) w.targets
  pub every_runtime :
      (k : String) (rt : ServiceRuntime F) → Dict.get k w.runtimes ≡ some rt → IsSound w k rt

-- whether a failing result makes the watcher restart the service
abbrev pub is_due : {F : Type 0} → WatcherConfig F → ServiceRuntime F → Bool
is_due config rt = leb_ℤ config.failure_threshold (pos (rt.consecutive_failures + 1))

module _ (fl : Floats) where
  open fl use {Float}

  -- What one result does to the runtime of its service, whatever the other services do.
  unfoldable pub advance :
      WatcherConfig Float
      → ServiceRuntime Float
      → HealthResult
      → (String → Attempt Float)
      → ServiceRuntime Float
  advance config rt result attempt =
      if result.ok
      then record rt { consecutive_failures = 0 }
      else if is_due config rt
      then record rt {
        consecutive_failures = 0;
        history = rt.history ++ event_of fl rt.target (attempt rt.target.container) ∷ [];
      }
      else record rt { consecutive_failures = rt.consecutive_failures + 1 }

  module _ (w : RecoveryWatcher Float) (rt : ServiceRuntime Float) (result : HealthResult)
      (attempt : String → Attempt Float) where
    abbrev next : RecoveryWatcher Float
    next = (react fl w rt result attempt).0

    runtimes-react :
        next.runtimes ≡ Dict.put result.target.name (advance w.config rt result attempt) w.runtimes
    unfolding react advance
    runtimes-react = ground arith

    pub get-react :
        (k : String)
        → Dict.get k next.runtimes ≡ (
            if result.target.name == k
            then some (advance w.config rt result attempt)
            else Dict.get k w.runtimes)
    get-react k = rw runtimes-react (get-put result.target.name k _ w.runtimes)

    pub react_keeps : (next.targets ≡ w.targets) × (next.config ≡ w.config) × (next.stop ≡ w.stop)
    unfolding react
    react_keeps = ground arith

    -- a recovery counts for its own service only
    count-react_ne :
        (k : String)
        → (rt.target.name == k) ≡ false
        → count_of k next.recovery_count ≡ count_of k w.recovery_count
    unfolding react
    count-react_ne k ne = ground (
      arith,
      get-put rt.target.name k (count_of rt.target.name w.recovery_count + 1) w.recovery_count,
    )

    advance-IsSound :
        (k : String)
        → rt.target.name ≡ k
        → IsSound w k rt
        → IsSound next k (advance w.config rt result attempt)
    unfolding react advance
    advance-IsSound k e s = record {
      named = ground arith;
      counted = ground (
        arith,
        get-put rt.target.name k (count_of rt.target.name w.recovery_count + 1) w.recovery_count,
        eq_iff rt.target.name k,
        length-append rt.history (event_of fl rt.target (attempt rt.target.container) ∷ []),
      );
      below = ground arith;
    }

    react-Watches : (t : ServiceTarget) → Watches w t → Watches next t
    react-Watches t h = rw (get-react t.name) (ground arith)

    pub react-Watches_all : (ts : List ServiceTarget) → All (Watches w) ts → All (Watches next) ts
    react-Watches_all [] h = tt
    react-Watches_all (t ∷ ts) h = (react-Watches t h.0, react-Watches_all ts h.1)

    react-every_runtime :
        Dict.get result.target.name w.runtimes ≡ some rt
        → IsWatching w
        → (k : String) (r : ServiceRuntime Float) → Dict.get k next.runtimes ≡ some r
        → IsSound next k r
    react-every_runtime here v k r h =
        let s : IsSound w result.target.name rt = v.every_runtime result.target.name rt here in
        elim (Bool-cases (result.target.name == k)) [
          | inl same ↦
              let p : result.target.name ≡ k = (eq_iff result.target.name k).0 same in
              let e : advance w.config rt result attempt ≡ r = ground (arith, get-react k) in
              subst (IsSound next k) e
                (advance-IsSound k (s.named ∙ p) (subst (λ j. IsSound w j rt) p s))
          | inr other ↦
              let old : IsSound w k r = v.every_runtime k r (ground (arith, get-react k)) in
              let ne : (rt.target.name == k) ≡ false = rw s.named other in
              record {
                named = old.named;
                counted = count-react_ne k ne ∙ old.counted;
                below = rw react_keeps.1 old.below;
              }
        ]

    -- one step of the loop of `_tick` keeps the invariant
    pub react-IsWatching :
        Dict.get result.target.name w.runtimes ≡ some rt → IsWatching w → IsWatching next
    react-IsWatching here v = record {
      every_target = rw react_keeps.0 (react-Watches_all w.targets v.every_target);
      every_runtime = react-every_runtime here v;
    }
