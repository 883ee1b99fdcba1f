-- ===== src/Orchestration/Recovery/Restarts.antt =====
-- orchestration/recovery.py: when a service is restarted over a whole run.
use cloud_microservices.Prelude.{
  ℕ, suc, ◌+◌, ◌*◌, ◌<◌, String, ◌≡◌, refl, ap, ◌∙◌, Bool, true, false, inl, inr, some, List, [],
  ◌∷◌, ◌++◌, map, arith, pos, ok, All, Bool-cases, ◌==◌, eq_iff, length,
}
use cloud_microservices.Prelude.Dict
use cloud_microservices.Prelude.Dict.{is_some}
use cloud_microservices.Floats.{Floats}
use cloud_microservices.Http.{Httpx}
use cloud_microservices.Orchestration.Targets.{ServiceTarget}
use cloud_microservices.Orchestration.Health.{probe_all}
use cloud_microservices.Orchestration.Health.Laws.{
  is_healthy, target-probe_one, ok-probe_one, targets-probe_all,
}
use cloud_microservices.Orchestration.Recovery.{
  WatcherConfig, ServiceRuntime, RecoveryWatcher, Action, Poll, init, tick, run,
}
use cloud_microservices.Orchestration.Recovery.Invariant.{Watches, IsWatching}
use cloud_microservices.Orchestration.Recovery.Safety.{Launches, runtime_of, tick-IsWatching}
use cloud_microservices.Orchestration.Recovery.Runs.{stop_if, run_cons}
use cloud_microservices.Orchestration.Recovery.Start.{init-IsFresh, init_fields, init-IsWatching}
use cloud_microservices.Orchestration.Recovery.Counting.{
  occurs, advance_named, get-react_all, recorded, Reports, advance_named_fails,
}

Watches-of_occurs :
    {F : Type 0} (k : String) (n : ℕ) (w : RecoveryWatcher F) (targets : List ServiceTarget)
    → occurs k targets ≡ suc n
    → All (Watches w) targets
    → is_some (Dict.get k w.runtimes) ≡ true
unfolding occurs
Watches-of_occurs k n w [] h a = absurd (omega arith)
Watches-of_occurs k n w (t ∷ ts) h a = elim (Bool-cases (t.name == k)) [
  | inl same ↦ rw (← (eq_iff t.name k).0 same) a.0
  | inr other ↦ Watches-of_occurs k n w ts (ground arith) a.1
]

module _ (fl : Floats) {J : Type 0} (hx : Httpx) where
  open fl use {Float}

  -- A poll cycle of a watcher that satisfies the invariant ends, if docker can be started, and it moves the
  -- runtime of a service by the probes of that service alone.
  pub tick_runtime :
      (k : String) (w : RecoveryWatcher Float) (rt : ServiceRuntime Float) (poll : Poll J Float)
      → Launches fl poll.attempt
      → IsWatching w
      → Dict.get k w.runtimes ≡ some rt
      → (out : RecoveryWatcher Float × List (Action Float)) × (tick fl hx w poll ≡ ok out)
        × (Dict.get k out.0.runtimes
            ≡ some (advance_named fl k w.config rt (probe_all hx w.targets poll.get) poll.attempt))
  unfolding tick
  tick_runtime k w rt poll docker v here =
      let (out, e, v', same) = tick-IsWatching fl hx w poll docker v in
      (out, e, get-react_all fl k w rt (probe_all hx w.targets poll.get) poll.attempt out here e)

  -- every target with the name gives the answer to its probe
  abbrev pub Answers : String → Bool → List ServiceTarget → Poll J Float → Type 0
  Answers k b targets poll = All (λ t. (t.name == k) ≡ true → is_healthy hx poll.get t ≡ b) targets

  pub Answers-Reports :
      (k : String) (b : Bool) (targets : List ServiceTarget) (poll : Poll J Float)
      → Answers k b targets poll
      → Reports fl k b (probe_all hx targets poll.get)
  unfolding probe_all
  Answers-Reports k b [] poll h = tt
  Answers-Reports k b (t ∷ ts) poll h = (
    λ same. ok-probe_one hx poll.get t ∙ h.0 (rw (target-probe_one hx poll.get t) at same),
    Answers-Reports k b ts poll h.1,
  )

  -- the service answers no probe of the cycle, docker can be started, and no stop is requested
  abbrev pub IsDown : String → List ServiceTarget → Poll J Float → Type 0
  IsDown k targets poll =
      (poll.stop_requested ≡ false) × Answers k false targets poll × Launches fl poll.attempt

  stop_false :
      {b : Bool} (w : RecoveryWatcher Float) (polls : List (Poll J Float))
      {last : RecoveryWatcher Float × List (Action Float) × Bool}
      → b ≡ false
      → run fl hx w polls ≡ ok last
      → run fl hx (stop_if fl b w) polls ≡ ok last
  stop_false w polls h r = rw h r

  pub run_down :
      (k : String) (m : ℕ) (w : RecoveryWatcher Float) (rt : ServiceRuntime Float)
      (polls : List (Poll J Float))
      → IsWatching w
      → w.stop ≡ false
      → w.config.failure_threshold ≡ pos (suc m)
      → Dict.get k w.runtimes ≡ some rt
      → rt.consecutive_failures < suc m
      → All (IsDown k w.targets) polls
      → (out : RecoveryWatcher Float × List (Action Float) × Bool) × (rt' : ServiceRuntime Float)
        × (run fl hx w polls ≡ ok out)
        × (Dict.get k out.0.runtimes ≡ some rt')
        × (recorded fl (suc m) rt' ≡ recorded fl (suc m) rt + length polls * occurs k w.targets)
        × (rt'.consecutive_failures < suc m)
  run_down k m w rt [] v going e here below down =
      ((w, [], w.stop), rt, unfold run in refl, here, omega arith, below)
  run_down k m w rt (poll ∷ polls) v going e here below down =
      let (out, t, v', same) = tick-IsWatching fl hx w poll down.0.2 v in
      let results = probe_all hx w.targets poll.get in
      let rt1 = advance_named fl k w.config rt results poll.attempt in
      let here1 : Dict.get k out.0.runtimes ≡ some rt1 =
        get-react_all fl k w rt results poll.attempt out here (unfold tick in t) in
      let (grows, below1) =
        advance_named_fails fl k m w.config rt results poll.attempt e below
          (Answers-Reports k false w.targets poll down.0.1) in
      let (last, rt', r, here', total, below') =
        run_down k m out.0 rt1 polls v' (same.stop ∙ going) (rw same.config e) here1 below1
          (rw same.targets down.1) in
      let seen : occurs k (map (λ r. r.target) results) ≡ occurs k w.targets =
        ap (occurs k) (targets-probe_all hx poll.get w.targets) in
      let total' = rw same.targets at total in
      (
        (last.0, out.1 ++ last.1, last.2),
        rt',
        run_cons fl hx w poll polls out last going t (stop_false out.0 polls down.0.0 r),
        here',
        omega (arith, total', grows, seen),
        below',
      )

  -- In a run of `n` cycles of a new watcher in which no stop is requested, with a threshold of at least
  -- 1 and a docker that can be started, a service that is watched once and answers no probe ends up with `n / threshold` recovery events
  -- and with its counter of failures at `n % threshold` (written as quotient and remainder of `n`).
  pub restarts_of_down_service :
      (targets : List ServiceTarget) (config : WatcherConfig Float) (k : String) (m : ℕ)
      (polls : List (Poll J Float))
      → config.failure_threshold ≡ pos (suc m)
      → occurs k targets ≡ 1
      → All (IsDown k targets) polls
      → (out : RecoveryWatcher Float × List (Action Float) × Bool) × (rt : ServiceRuntime Float)
        × (run fl hx (init targets config) polls ≡ ok out)
        × (Dict.get k out.0.runtimes ≡ some rt)
        × (length rt.history * suc m + rt.consecutive_failures ≡ length polls)
        × (rt.consecutive_failures < suc m)
  restarts_of_down_service targets config k m polls e once down =
      let w = init targets config in
      let (going, t, c) = init_fields targets config in
      let v = init-IsWatching targets config in
      let (rt0, here) =
        runtime_of fl (Dict.get k w.runtimes)
          (Watches-of_occurs k 0 w targets once (rw t at v.every_target)) in
      let f = init-IsFresh targets config k rt0 here in
      let q : occurs k w.targets ≡ 1 = ap (occurs k) t ∙ once in
      let (out, rt, r, here', total, below) =
        run_down k m w rt0 polls v going (rw c e) here (rw f.idle (omega arith)) (rw t down) in
      (out, rt, r, here', omega (arith, rw (q, f.empty, f.idle) at total), below)
