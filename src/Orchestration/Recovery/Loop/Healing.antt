-- ===== src/Orchestration/Recovery/Loop/Healing.antt =====
-- orchestration/recovery.py: a container that is down is brought back.
use cloud_microservices.Prelude.{
  ℕ, suc, ◌+◌, ◌≤◌, ◌<◌, String, ◌≡◌, refl, sym, subst, ap, ◌∙◌, ◌⊎◌, inl, inr, Bool, true, false,
  ◌&&◌, ◌==◌, eq_iff, some, List, [], ◌∷◌, any, arith, pos, ℤ, leb_ℤ, leb-false→lt, ok, err, All,
  Bool-cases, length, if◌then◌else◌,
}
use cloud_microservices.Prelude.Dict
use cloud_microservices.Floats.{Floats}
use cloud_microservices.Http.{Exchange, failed, Httpx, checked}
use cloud_microservices.Orchestration.Targets.{ServiceTarget}
use cloud_microservices.Orchestration.Health.{probe_all}
use cloud_microservices.Orchestration.Health.Laws.{targets-probe_all}
use cloud_microservices.Orchestration.Recovery.{
  RecoveryWatcher, ServiceRuntime, Action, Attempt, docker_start_ok, tick,
}
use cloud_microservices.Orchestration.Recovery.Invariant.{IsWatching}
use cloud_microservices.Orchestration.Recovery.Safety.{Launches, tick-IsWatching}
use cloud_microservices.Orchestration.Recovery.Counting.{occurs}
use cloud_microservices.Orchestration.Recovery.Restarts.{Answers, Answers-Reports}
use cloud_microservices.Orchestration.Recovery.Loop.Notice.{Starts, Noticed, react_all-Noticed}
use cloud_microservices.Orchestration.Recovery.Loop.{
  Running, Cycle, starts, started, poll_of, watch_over,
}

-- the probes of the service `k` reach the container `c`
abbrev pub IsBehind : (String → String) → String → String → List ServiceTarget → Type 0
IsBehind behind k c = All (λ t. (t.name == k) ≡ true → behind t.health_url ≡ c)

-- what others do before a cycle does not stop the container
abbrev pub Spares : {J F : Type 0} → String → Cycle J F → Type 0
Spares c cycle = (running : Running) → running c ≡ true → cycle.meanwhile running c ≡ true

any_both :
    {A : Type 0} (p q : A → Bool) (xs : List A)
    → ((x : A) → p x ≡ true → q x ≡ true)
    → any p xs ≡ true
    → any (λ x. p x && q x) xs ≡ true
any_both p q [] both h = h
any_both p q (x ∷ xs) both h = ground (arith, both x, any_both p q xs both)

module _ {F : Type 0} where
  -- the watcher stops no container
  started_keeps :
      (attempt : String → Attempt F) (actions : List (Action F)) (running : Running) (c : String)
      → running c ≡ true
      → started attempt actions running c ≡ true
  unfolding started
  started_keeps attempt actions running c h = rw h refl

  -- a container that is started, by a command that works, runs
  started_of_Starts :
      (attempt : String → Attempt F) (actions : List (Action F)) (running : Running) (c : String)
      → docker_start_ok (attempt c).returncode ≡ true
      → Starts c actions
      → started attempt actions running c ≡ true
  unfolding started
  started_of_Starts attempt actions running c works h =
      let both =
        any_both (λ d. d == c) (λ d. docker_start_ok (attempt d).returncode) (starts actions)
          (λ d e.
            subst (λ x. docker_start_ok (attempt x).returncode ≡ true) (sym ((eq_iff d c).0 e))
              works)
          h in
      ground (arith, both)

below_threshold :
    {threshold : ℤ} {m f : ℕ}
    → (f ≡ 0) ⊎ (leb_ℤ threshold (pos f) ≡ false)
    → threshold ≡ pos (suc m)
    → f < suc m
below_threshold (inl z) e = omega (arith, z)
below_threshold {threshold} {m} {f} (inr h) e = leb-false→lt (suc m) f (ground arith)

module _ (fl : Floats) where
  open fl use {Float}

  module _ {J : Type 0} (hx : Httpx) (behind : String → String) where
    silent :
        (b : Bool) (x : Exchange J)
        → b ≡ false
        → (elim (checked hx (if b then x else failed "connection refused")) [
          | ok _ ↦ true
          | err _ ↦ false
        ])
          ≡ false
    unfolding checked
    silent true x h = cc
    silent false x h = refl

    Answers-down :
        (k c : String) (running : Running) (cycle : Cycle J Float) (targets : List ServiceTarget)
        → running c ≡ false
        → IsBehind behind k c targets
        → Answers fl hx k false targets (poll_of behind running cycle)
    Answers-down k c running cycle [] down h = tt
    Answers-down k c running cycle (t ∷ ts) down h = (
      λ same.
          silent (running (behind t.health_url)) (cycle.answers t.health_url)
            (ap running (h.0 same) ∙ down),
      Answers-down k c running cycle ts down h.1,
    )

    watch_over_cons :
        (cycle : Cycle J Float) (cycles : List (Cycle J Float)) (w : RecoveryWatcher Float)
        (running : Running) (out : RecoveryWatcher Float × List (Action Float))
        (last : RecoveryWatcher Float × Running)
        → let before = cycle.meanwhile running in
          tick fl hx w (poll_of behind before cycle) ≡ ok out
          → watch_over fl hx behind cycles out.0 (started cycle.attempt out.1 before) ≡ ok last
          → watch_over fl hx behind (cycle ∷ cycles) w running ≡ ok last
    unfolding watch_over
    watch_over_cons cycle cycles w running out last e e' = rw e e'

    -- the cycles end, and the container runs
    abbrev pub EndsUp : String → List (Cycle J Float) → RecoveryWatcher Float → Running → Type 0
    EndsUp c cycles w running =
        (out : RecoveryWatcher Float × Running) × (watch_over fl hx behind cycles w running
          ≡ ok out)
        × (out.1 c ≡ true)

    -- a container that runs keeps running
    pub watch_over_keeps :
        (cycles : List (Cycle J Float)) (w : RecoveryWatcher Float) (running : Running) (c : String)
        → All (λ cycle. Launches fl cycle.attempt) cycles
        → All (Spares c) cycles
        → IsWatching w
        → running c ≡ true
        → EndsUp c cycles w running
    unfolding watch_over
    watch_over_keeps [] w running c docker spared v up = ((w, running), refl, up)
    watch_over_keeps (cycle ∷ cycles) w running c docker spared v up =
        let before = cycle.meanwhile running in
        let (out, t, v', _) = tick-IsWatching fl hx w (poll_of behind before cycle) docker.0 v in
        let (last, e, up') =
          watch_over_keeps cycles out.0 (started cycle.attempt out.1 before) c docker.1 spared.1 v'
            (started_keeps cycle.attempt out.1 before c (spared.0 running up)) in
        (last, watch_over_cons cycle cycles w running out last t e, up')

    tick-Noticed :
        (k c : String) (w : RecoveryWatcher Float) (rt : ServiceRuntime Float) (running : Running)
        (cycle : Cycle J Float) (out : RecoveryWatcher Float × List (Action Float))
        → Dict.get k w.runtimes ≡ some rt
        → running c ≡ false
        → IsBehind behind k c w.targets
        → tick fl hx w (poll_of behind running cycle) ≡ ok out
        → Noticed fl k rt (occurs k w.targets) out
    unfolding tick
    tick-Noticed k c w rt running cycle out here down b t =
        let poll = poll_of behind running cycle in
        subst (λ ts. Noticed fl k rt (occurs k ts) out) (targets-probe_all hx poll.get w.targets)
          (react_all-Noticed fl k w rt (probe_all hx w.targets poll.get) poll.attempt out here
            (Answers-Reports fl hx k false w.targets poll
              (Answers-down k c running cycle w.targets down b))
            t)

    -- From any state of a watcher that satisfies the invariant, with a threshold of at least 1, a docker
    -- that can be started, and a service that is watched and whose probes reach its own container: whichever
    -- containers are down, after cycles for the failures that are missing to the threshold, in which
    -- `docker start` of that container works and before which nobody else stops it, the container runs,
    -- whatever the services answer and whatever becomes of the other containers.
    pub watch_over_heals :
        (k c : String) (m : ℕ) (cycles : List (Cycle J Float)) (w : RecoveryWatcher Float)
        (rt : ServiceRuntime Float) (running : Running)
        → IsWatching w
        → w.config.failure_threshold ≡ pos (suc m)
        → Dict.get k w.runtimes ≡ some rt
        → rt.target.container ≡ c
        → 0 < occurs k w.targets
        → IsBehind behind k c w.targets
        → All (λ cycle. docker_start_ok (cycle.attempt c).returncode ≡ true) cycles
        → All (λ cycle. Launches fl cycle.attempt) cycles
        → All (Spares c) cycles
        → suc m ≤ rt.consecutive_failures + length cycles
        → EndsUp c cycles w running
    watch_over_heals k c m [] w rt running v e here own watched b works docker spared long =
        let below = below_threshold (v.every_runtime k rt here).below e in
        absurd (omega (arith, below, long))
    watch_over_heals k c m (cycle ∷ cycles) w rt running v e here own watched b works docker spared
          long =
        let before = cycle.meanwhile running in
        let (out, t, v', same) = tick-IsWatching fl hx w (poll_of behind before cycle) docker.0 v in
        let running' = started cycle.attempt out.1 before in
        let onward : running' c ≡ true → EndsUp c (cycle ∷ cycles) w running = λ up.
          let (last, e', up') = watch_over_keeps cycles out.0 running' c docker.1 spared.1 v' up in
          (last, watch_over_cons cycle cycles w running out last t e', up') in
        elim (Bool-cases (before c)) [
          | inl up ↦ onward (started_keeps cycle.attempt out.1 before c up)
          | inr down ↦ elim (tick-Noticed k c w rt before cycle out here down b t) [
            | inl starts' ↦
                onward (started_of_Starts cycle.attempt out.1 before c works.0 (rw own at starts'))
            | inr (rt', there, target, counted) ↦
                let (last, e', up') =
                  watch_over_heals k c m cycles out.0 rt' running' v' (rw same.config e) there
                    (ap (λ s. s.container) target ∙ own) (rw same.targets watched)
                    (rw same.targets b) works.1 docker.1 spared.1
                    (omega (arith, counted, long, watched)) in
                (last, watch_over_cons cycle cycles w running out last t e', up')
          ]
        ]
