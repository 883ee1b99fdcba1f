-- ===== src/Orchestration/Recovery/Counting.antt =====
-- orchestration/recovery.py: how often a service is restarted.
use cloud_microservices.Prelude.{
  ℕ, suc, ◌+◌, ◌*◌, ◌≤◌, ◌<◌, String, ◌≡◌, refl, sym, ap, ◌∙◌, Bool, true, false, inl, inr, some,
  List, [], ◌∷◌, map, arith, pos, leb, leb→le, leb-false→lt, ok, if◌then◌else◌, All, Bool-cases,
  ◌==◌, eq_iff, length, length-append,
}
use cloud_microservices.Prelude.Dict
use cloud_microservices.Prelude.Dict.{Dict}
use cloud_microservices.Floats.{Floats}
use cloud_microservices.Orchestration.Targets.{ServiceTarget}
use cloud_microservices.Orchestration.Health.{HealthResult}
use cloud_microservices.Orchestration.Recovery.{
  WatcherConfig, ServiceRuntime, RecoveryWatcher, Action, Attempt, event_of, react, react_all,
}
use cloud_microservices.Orchestration.Recovery.Invariant.{is_due, advance, get-react, react_keeps}
use cloud_microservices.Orchestration.Recovery.Safety.{react_all_inv}

-- how many targets have the name
unfoldable pub occurs : String → List ServiceTarget → ℕ
occurs k [] = 0
occurs k (t ∷ ts) = (if t.name == k then 1 else 0) + occurs k ts

module _ (fl : Floats) where
  open fl use {Float}

  -- The results of one poll, seen by one service: those of the other services do nothing.
  unfoldable pub advance_named :
      String
      → WatcherConfig Float
      → ServiceRuntime Float
      → List HealthResult
      → (String → Attempt Float)
      → ServiceRuntime Float
  advance_named k config rt [] attempt = rt
  advance_named k config rt (r ∷ rs) attempt =
      advance_named k config (if r.target.name == k then advance fl config rt r attempt else rt) rs
        attempt

  -- A cycle moves the runtime of a service by that service's own results alone.
  pub get-react_all :
      (k : String) (w : RecoveryWatcher Float) (rt : ServiceRuntime Float)
      (results : List HealthResult) (attempt : String → Attempt Float)
      (out : RecoveryWatcher Float × List (Action Float))
      → Dict.get k w.runtimes ≡ some rt
      → react_all fl w results attempt ≡ ok out
      → Dict.get k out.0.runtimes ≡ some (advance_named k w.config rt results attempt)
  unfolding react_all advance_named
  get-react_all k w rt [] attempt out here e = ground arith
  get-react_all k w rt (r ∷ rs) attempt out here e =
      let (rt0, rest, found, e', split) = react_all_inv fl w r rs attempt out e in
      let rt' = if r.target.name == k then advance fl w.config rt r attempt else rt in
      let here' : Dict.get k (react fl w rt0 r attempt).0.runtimes ≡ some rt' =
        ground (arith, get-react fl w rt0 r attempt k, eq_iff r.target.name k) in
      let ih = get-react_all k (react fl w rt0 r attempt).0 rt' rs attempt rest here' e' in
      ap (λ (o : RecoveryWatcher Float × List (Action Float)). Dict.get k o.0.runtimes) split
      ∙ ih
      ∙ ap (λ c. some (advance_named k c rt' rs attempt)) (react_keeps fl w rt0 r attempt).1

  -- how many failures the runtime has on record, at `threshold` failures for each event
  abbrev pub recorded : ℕ → ServiceRuntime Float → ℕ
  recorded threshold rt = length rt.history * threshold + rt.consecutive_failures

  advance_due :
      (config : WatcherConfig Float) (rt : ServiceRuntime Float) (r : HealthResult)
      (attempt : String → Attempt Float)
      → r.ok ≡ false
      → is_due config rt ≡ true
      → (length (advance fl config rt r attempt).history ≡ length rt.history + 1)
        × ((advance fl config rt r attempt).consecutive_failures ≡ 0)
  unfolding advance
  advance_due config rt r attempt fails due =
      rw (fails, due)
        (length-append rt.history (event_of fl rt.target (attempt rt.target.container) ∷ []), refl)

  pub advance_early :
      (config : WatcherConfig Float) (rt : ServiceRuntime Float) (r : HealthResult)
      (attempt : String → Attempt Float)
      → r.ok ≡ false
      → is_due config rt ≡ false
      → advance fl config rt r attempt
        ≡ record rt { consecutive_failures = rt.consecutive_failures + 1 }
  unfolding advance
  advance_early config rt r attempt fails early = rw (fails, early)

  pub is_due-threshold :
      (m : ℕ) (config : WatcherConfig Float) (rt : ServiceRuntime Float)
      → config.failure_threshold ≡ pos (suc m)
      → is_due config rt ≡ leb (suc m) (rt.consecutive_failures + 1)
  is_due-threshold m config rt e = rw e (ground arith)

  advance_fails :
      (m : ℕ) (config : WatcherConfig Float) (rt : ServiceRuntime Float) (r : HealthResult)
      (attempt : String → Attempt Float)
      → config.failure_threshold ≡ pos (suc m)
      → rt.consecutive_failures < suc m
      → r.ok ≡ false
      → (recorded (suc m) (advance fl config rt r attempt) ≡ recorded (suc m) rt + 1)
        × ((advance fl config rt r attempt).consecutive_failures < suc m)
  advance_fails m config rt r attempt e below fails = elim (Bool-cases (is_due config rt)) [
    | inl due ↦
        let (more, reset) = advance_due config rt r attempt fails due in
        let reached : suc m ≤ rt.consecutive_failures + 1 =
          leb→le _ _ (sym (is_due-threshold m config rt e) ∙ due) in
        (rw (more, reset) (grind arith), rw reset (omega arith))
    | inr early ↦
        let not_reached : rt.consecutive_failures + 1 < suc m =
          leb-false→lt _ _ (sym (is_due-threshold m config rt e) ∙ early) in
        rw (advance_early config rt r attempt fails early) (omega arith, not_reached)
  ]

  pub advance_passes :
      (config : WatcherConfig Float) (rt : ServiceRuntime Float) (r : HealthResult)
      (attempt : String → Attempt Float)
      → r.ok ≡ true
      → (advance fl config rt r attempt).history ≡ rt.history
  unfolding advance
  advance_passes config rt r attempt h = ground arith

  -- every result that names the service has the outcome
  abbrev pub Reports : String → Bool → List HealthResult → Type 0
  Reports k b = All (λ r. (r.target.name == k) ≡ true → r.ok ≡ b)

  module _ (k : String) (config : WatcherConfig Float) (rt : ServiceRuntime Float)
      (r : HealthResult) (rs : List HealthResult) (attempt : String → Attempt Float) where
    pub advance_named_hit :
        (r.target.name == k) ≡ true
        → advance_named k config rt (r ∷ rs) attempt
          ≡ advance_named k config (advance fl config rt r attempt) rs attempt
    unfolding advance_named
    advance_named_hit same =
        ap
          (λ b.
            advance_named k config (if b then advance fl config rt r attempt else rt) rs attempt)
          same

    pub advance_named_miss :
        (r.target.name == k) ≡ false
        → advance_named k config rt (r ∷ rs) attempt ≡ advance_named k config rt rs attempt
    unfolding advance_named
    advance_named_miss other =
        ap
          (λ b.
            advance_named k config (if b then advance fl config rt r attempt else rt) rs attempt)
          other

  pub advance_named_fails :
      (k : String) (m : ℕ) (config : WatcherConfig Float) (rt : ServiceRuntime Float)
      (results : List HealthResult) (attempt : String → Attempt Float)
      → config.failure_threshold ≡ pos (suc m)
      → rt.consecutive_failures < suc m
      → Reports k false results
      → (recorded (suc m) (advance_named k config rt results attempt)
          ≡ recorded (suc m) rt + occurs k (map (λ r. r.target) results))
        × ((advance_named k config rt results attempt).consecutive_failures < suc m)
  unfolding occurs
  advance_named_fails k m config rt [] attempt e below fails =
      unfold advance_named in (omega arith, below)
  advance_named_fails k m config rt (r ∷ rs) attempt e below fails =
      elim (Bool-cases (r.target.name == k)) [
        | inl same ↦
            let (grows, below') = advance_fails m config rt r attempt e below (fails.0 same) in
            let ih =
              advance_named_fails k m config (advance fl config rt r attempt) rs attempt e below'
                fails.1 in
            rw (advance_named_hit k config rt r rs attempt same, same)
              (omega (arith, ih.0, grows), ih.1)
        | inr other ↦
            let ih = advance_named_fails k m config rt rs attempt e below fails.1 in
            rw (advance_named_miss k config rt r rs attempt other, other)
              (omega (arith, ih.0), ih.1)
      ]
