-- ===== src/Orchestration/Recovery/Quiet.antt =====
-- orchestration/recovery.py: a service that answers is left alone.
use cloud_microservices.Prelude.{
  sym, ap, subst, false, ◌⊎◌, any, ◌||◌, eq_iff, arith, String, ◌≡◌, refl, ◌∙◌, Bool, true, inl,
  inr, some, List, [], ◌∷◌, ◌++◌, ok, All, Bool-cases, ◌==◌,
}
use cloud_microservices.Prelude.Dict
use cloud_microservices.Floats.{Floats}
use cloud_microservices.Http.{Httpx}
use cloud_microservices.Orchestration.Health.{HealthResult, probe_all}
use cloud_microservices.Orchestration.Recovery.{
  WatcherConfig, ServiceRuntime, RecoveryWatcher, Action, Attempt, Poll, recover, react, react_all,
  tick, run,
}
use cloud_microservices.Orchestration.Recovery.Invariant.{IsWatching, advance, get-react}
use cloud_microservices.Orchestration.Recovery.Safety.{react_all_inv, Launches, tick-IsWatching}
use cloud_microservices.Orchestration.Recovery.Runs.{
  stop_if, stop_if_keeps, stop_if-IsWatching, run_cons,
}
use cloud_microservices.Orchestration.Recovery.Counting.{
  advance_named, advance_named_hit, advance_named_miss, get-react_all, Reports, advance_passes,
}
use cloud_microservices.Orchestration.Recovery.Loop.{starts}
use cloud_microservices.Orchestration.Recovery.Loop.Notice.{any-append, starts-append}
use cloud_microservices.Orchestration.Recovery.Restarts.{Answers, Answers-Reports}

module _ (fl : Floats) (k : String) where
  open fl use {Float}

  advance_named_passes :
      (config : WatcherConfig Float) (rt : ServiceRuntime Float) (results : List HealthResult)
      (attempt : String → Attempt Float)
      → Reports fl k true results
      → (advance_named fl k config rt results attempt).history ≡ rt.history
  advance_named_passes config rt [] attempt h = unfold advance_named in refl
  advance_named_passes config rt (r ∷ rs) attempt h = elim (Bool-cases (r.target.name == k)) [
    | inl same ↦ rw (advance_named_hit fl k config rt r rs attempt same) (
        advance_named_passes config (advance fl config rt r attempt) rs attempt h.1
        ∙ advance_passes fl config rt r attempt (h.0 same))
    | inr other ↦
        rw (advance_named_miss fl k config rt r rs attempt other)
          (advance_named_passes config rt rs attempt h.1)
  ]

  -- no other runtime is that of the container
  abbrev pub IsAlone : String → RecoveryWatcher Float → Type 0
  IsAlone c w =
      (k' : String) (rt : ServiceRuntime Float)
      → Dict.get k' w.runtimes ≡ some rt
      → (k' == k) ≡ false
      → (rt.target.container == c) ≡ false

  -- whether `docker start` of the container is among the actions
  abbrev pub is_started : String → List (Action Float) → Bool
  is_started c actions = any (λ d. d == c) (starts actions)

  is_started-append :
      (c : String) (xs ys : List (Action Float))
      → is_started c (xs ++ ys) ≡ (is_started c xs || is_started c ys)
  is_started-append c xs ys =
      rw (starts-append xs ys) (any-append (λ d. d == c) (starts xs) (starts ys))

  react_quiet :
      (c : String) (w : RecoveryWatcher Float) (rt : ServiceRuntime Float) (r : HealthResult)
      (attempt : String → Attempt Float)
      → (r.ok ≡ true) ⊎ ((rt.target.container == c) ≡ false)
      → is_started c (react fl w rt r attempt).1 ≡ false
  unfolding react recover starts
  react_quiet c w rt r attempt h = ground arith

  target-advance :
      (config : WatcherConfig Float) (rt : ServiceRuntime Float) (r : HealthResult)
      (attempt : String → Attempt Float)
      → (advance fl config rt r attempt).target ≡ rt.target
  unfolding advance
  target-advance config rt r attempt = ground arith

  react-IsAlone :
      (c : String) (w : RecoveryWatcher Float) (rt : ServiceRuntime Float) (r : HealthResult)
      (attempt : String → Attempt Float)
      → Dict.get r.target.name w.runtimes ≡ some rt
      → IsAlone c w
      → IsAlone c (react fl w rt r attempt).0
  react-IsAlone c w rt r attempt found alone k' rt' h other =
      let got = get-react fl w rt r attempt k' in
      elim (Bool-cases (r.target.name == k')) [
        | inr miss ↦ alone k' rt' (ground (arith, got)) other
        | inl hit ↦
            let same : r.target.name ≡ k' = (eq_iff r.target.name k').0 hit in
            let moved : advance fl w.config rt r attempt ≡ rt' = ground (arith, got) in
            let kept : rt.target ≡ rt'.target =
              sym (target-advance w.config rt r attempt) ∙ ap (λ x. x.target) moved in
            subst (λ t. (t.container == c) ≡ false) kept (alone k' rt (rw same at found) other)
      ]

  react_all_quiet :
      (c : String) (w : RecoveryWatcher Float) (results : List HealthResult)
      (attempt : String → Attempt Float) (out : RecoveryWatcher Float × List (Action Float))
      → IsAlone c w
      → Reports fl k true results
      → react_all fl w results attempt ≡ ok out
      → (is_started c out.1 ≡ false) × IsAlone c out.0
  unfolding react_all starts
  react_all_quiet c w [] attempt out alone up run =
      let e : (w, []) ≡ out = ground arith in
      subst (λ o. (is_started c o.1 ≡ false) × IsAlone c o.0) e (refl, alone)
  react_all_quiet c w (r ∷ rs) attempt out alone up run =
      let (rt, rest, found, run', split) = react_all_inv fl w r rs attempt out run in
      let step = react fl w rt r attempt in
      let (quiet, alone') =
        react_all_quiet c step.0 rs attempt rest (react-IsAlone c w rt r attempt found alone) up.1
          run' in
      let first : is_started c step.1 ≡ false =
        react_quiet c w rt r attempt (elim (Bool-cases (r.target.name == k)) [
          | inl own ↦ inl (up.0 own)
          | inr other ↦ inr (alone r.target.name rt found other)
        ]) in
      rw split (rw (is_started-append c step.1 rest.1, first, quiet) refl, alone')

  stop_if-IsAlone :
      (c : String) (b : Bool) (w : RecoveryWatcher Float) → IsAlone c w → IsAlone c (stop_if fl b w)
  stop_if-IsAlone c b w alone k' rt h = alone k' rt (rw ((stop_if_keeps fl b w).2) at h)

  -- In a run of a watcher that satisfies the invariant, a service with a runtime that answers every
  -- probe is not restarted, whatever the others do and whenever the run is stopped, if docker can be
  -- started: its history is as before, and no container is started that no other service has.
  pub run_healthy :
      {J : Type 0} (hx : Httpx) (c : String) (w : RecoveryWatcher Float) (rt : ServiceRuntime Float)
      (polls : List (Poll J Float))
      → IsWatching w
      → IsAlone c w
      → Dict.get k w.runtimes ≡ some rt
      → All (λ poll. Answers fl hx k true w.targets poll × Launches fl poll.attempt) polls
      → (out : RecoveryWatcher Float × List (Action Float) × Bool) × (rt' : ServiceRuntime Float)
        × (run fl hx w polls ≡ ok out)
        × (Dict.get k out.0.runtimes ≡ some rt')
        × (rt'.history ≡ rt.history)
        × (is_started c out.1 ≡ false)
  run_healthy hx c w rt [] v alone here up =
      ((w, [], w.stop), rt, unfold run in refl, here, refl, unfold starts in refl)
  run_healthy hx c w rt (poll ∷ polls) v alone here up = elim (Bool-cases w.stop) [
    | inl stopped ↦ ((w, [], true), rt, unfold run in rw stopped, here, refl, unfold starts in refl)
    | inr going ↦
        let (out, t, v', same) = tick-IsWatching fl hx w poll up.0.1 v in
        let results = probe_all hx w.targets poll.get in
        let rt1 = advance_named fl k w.config rt results poll.attempt in
        let here1 : Dict.get k out.0.runtimes ≡ some rt1 =
          get-react_all fl k w rt results poll.attempt out here (unfold tick in t) in
        let quiet =
          advance_named_passes w.config rt results poll.attempt
            (Answers-Reports fl hx k true w.targets poll up.0.0) in
        let (ts, same_config, rts, n) = stop_if_keeps fl poll.stop_requested out.0 in
        let (still, alone1) =
          react_all_quiet c w results poll.attempt out alone
            (Answers-Reports fl hx k true w.targets poll up.0.0) (unfold tick in t) in
        let (last, rt', r, here', kept, calm) =
          run_healthy hx c (stop_if fl poll.stop_requested out.0) rt1 polls
            (stop_if-IsWatching fl poll.stop_requested v')
            (stop_if-IsAlone c poll.stop_requested out.0 alone1) (rw rts here1)
            (rw (ts, same.targets) up.1) in
        (
          (last.0, out.1 ++ last.1, last.2),
          rt',
          run_cons fl hx w poll polls out last going t r,
          here',
          kept ∙ quiet,
          rw (is_started-append c out.1 last.1, still, calm) refl,
        )
  ]
