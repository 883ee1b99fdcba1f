-- ===== src/Orchestration/Recovery/Loop/Notice.antt =====
-- orchestration/recovery.py: what the failing results of one cycle come to for a service.
use cloud_microservices.Prelude.{
  ℕ, ◌+◌, String, ◌≡◌, refl, sym, subst, ap, ◌∙◌, ◌⊎◌, inl, inr, Bool, true, false, ◌||◌, ◌==◌,
  eq_iff, eq_refl, some, List, [], ◌∷◌, ◌++◌, map, any, arith, ok, Bool-cases,
}
use cloud_microservices.Prelude.Dict
use cloud_microservices.Floats.{Floats}
use cloud_microservices.Orchestration.Health.{HealthResult}
use cloud_microservices.Orchestration.Recovery.{
  RecoveryWatcher, ServiceRuntime, Action, recovered_passively, check_failed, docker_start,
  recovery_event, slept, Attempt, recover, react, react_all,
}
use cloud_microservices.Orchestration.Recovery.Invariant.{is_due, advance, get-react}
use cloud_microservices.Orchestration.Recovery.Safety.{react_all_inv}
use cloud_microservices.Orchestration.Recovery.Counting.{occurs, Reports, advance_early}
use cloud_microservices.Orchestration.Recovery.Loop.{starts}

pub any-append :
    {A : Type 0} (p : A → Bool) (xs ys : List A) → any p (xs ++ ys) ≡ (any p xs || any p ys)
any-append p [] ys = refl
any-append p (x ∷ xs) ys = ground (arith, any-append p xs ys)

module _ {F : Type 0} where
  pub starts-append : (xs ys : List (Action F)) → starts (xs ++ ys) ≡ starts xs ++ starts ys
  unfolding starts
  starts-append [] ys = refl
  starts-append (docker_start d ∷ xs) ys = ap (λ ds. d ∷ ds) (starts-append xs ys)
  starts-append (recovered_passively name n ∷ xs) ys = starts-append xs ys
  starts-append (check_failed name n detail ∷ xs) ys = starts-append xs ys
  starts-append (recovery_event name b n ∷ xs) ys = starts-append xs ys
  starts-append (slept d ∷ xs) ys = starts-append xs ys

  -- the watcher starts the container
  abbrev pub Starts : String → List (Action F) → Type 0
  Starts c actions = any (λ d. d == c) (starts actions) ≡ true

  Starts-append :
      (c : String) (xs ys : List (Action F)) → Starts c xs ⊎ Starts c ys → Starts c (xs ++ ys)
  Starts-append c xs ys h =
      rw (starts-append xs ys, any-append (λ d. d == c) (starts xs) (starts ys)) (ground arith)

module _ (fl : Floats) where
  open fl use {Float}

  react_due :
      (w : RecoveryWatcher Float) (rt : ServiceRuntime Float) (r : HealthResult)
      (attempt : String → Attempt Float)
      → r.ok ≡ false
      → is_due w.config rt ≡ true
      → Starts rt.target.container (react fl w rt r attempt).1
  unfolding react recover starts
  react_due w rt r attempt fails due = rw (fails, due, eq_refl rt.target.container) refl

  -- What the failing results of a service have come to by the end of a cycle: its container has been
  -- started, or its runtime has counted them all.
  abbrev pub Noticed :
      String → ServiceRuntime Float → ℕ → RecoveryWatcher Float × List (Action Float) → Type 0
  Noticed k rt n out =
      Starts rt.target.container out.1
      ⊎ ((rt' : ServiceRuntime Float) × (Dict.get k out.0.runtimes ≡ some rt')
          × (rt'.target ≡ rt.target)
          × (rt'.consecutive_failures ≡ rt.consecutive_failures + n))

  Noticed-cons :
      (k : String) (rt rt1 : ServiceRuntime Float) (j n : ℕ) (first : List (Action Float))
      (rest out : RecoveryWatcher Float × List (Action Float))
      → rt1.target ≡ rt.target
      → rt1.consecutive_failures ≡ rt.consecutive_failures + j
      → out ≡ (rest.0, first ++ rest.1)
      → Noticed k rt1 n rest
      → Noticed k rt (j + n) out
  Noticed-cons k rt rt1 j n first rest out t c split (inl starts') =
      inl (rw split (Starts-append rt.target.container first rest.1 (inr (rw t at starts'))))
  Noticed-cons k rt rt1 j n first rest out t c split (inr (rt', there, same, counted)) =
      inr (rt', rw split there, same ∙ t, omega (arith, c, counted))

  pub react_all-Noticed :
      (k : String) (w : RecoveryWatcher Float) (rt : ServiceRuntime Float)
      (results : List HealthResult) (attempt : String → Attempt Float)
      (out : RecoveryWatcher Float × List (Action Float))
      → Dict.get k w.runtimes ≡ some rt
      → Reports fl k false results
      → react_all fl w results attempt ≡ ok out
      → Noticed k rt (occurs k (map (λ r. r.target) results)) out
  unfolding react_all occurs
  react_all-Noticed k w rt [] attempt out here fails run = inr (rt, ground arith, refl, omega arith)
  react_all-Noticed k w rt (r ∷ rs) attempt out here fails run =
      let (rt0, rest, found, run', split) = react_all_inv fl w r rs attempt out run in
      let step = react fl w rt0 r attempt in
      elim (Bool-cases (r.target.name == k)) [
        | inr other ↦
            let there : Dict.get k step.0.runtimes ≡ some rt =
              ground (arith, get-react fl w rt0 r attempt k) in
            rw other (
              Noticed-cons k rt rt 0 _ step.1 rest out refl (omega arith) split
                (react_all-Noticed k step.0 rt rs attempt rest there fails.1 run'))
        | inl same ↦
            let p : rt0 ≡ rt = ground (arith, eq_iff r.target.name k) in
            let fail = fails.0 same in
            elim (Bool-cases (is_due w.config rt)) [
              | inl due ↦ inl (
                  rw split (
                    Starts-append rt.target.container step.1 rest.1 (
                      inl (
                        subst (λ x. Starts rt.target.container (react fl w x r attempt).1) (sym p)
                          (react_due w rt r attempt fail due)))))
              | inr early ↦
                  let rt1 : ServiceRuntime Float = record rt {
                    consecutive_failures = rt.consecutive_failures + 1;
                  } in
                  let moved =
                    ap (λ x. advance fl w.config x r attempt) p
                    ∙ advance_early fl w.config rt r attempt fail early in
                  let there : Dict.get k step.0.runtimes ≡ some rt1 =
                    ground (arith, get-react fl w rt0 r attempt k, moved) in
                  rw same (
                    Noticed-cons k rt rt1 1 _ step.1 rest out refl refl split
                      (react_all-Noticed k step.0 rt1 rs attempt rest there fails.1 run'))
            ]
      ]
