-- ===== src/ServiceA/FanOut/Outcome.antt =====
-- services/service-a/app/worker.py: what `gather` returns or raises.
use cloud_microservices.Prelude.{
  ℕ, zero, suc, ◌≡◌, refl, sym, ap, ◌∙◌, Option, none, some, List, [], ◌∷◌, map, arith, ℤ,
  get_elem?, set, Result, ok, err, inl, inr, Option-cases,
}
use cloud_microservices.ServiceA.FanOut.{
  Status, waiting, in_flight, finished, Task, FanOut, Move, acquire, complete, value_of, collect,
  gathered, after, start, step, run,
}
use cloud_microservices.ServiceA.FanOut.Moves.{step-acquire, step-complete, run-keeps}

module _ {E A : Type 0} where
  abbrev pub meets_of : List (Task E A) → List (Result E A)
  meets_of = map (λ t. t.meets)

  meets_of-set :
      (ts : List (Task E A)) (i : ℕ) (t : Task E A) (u : Status)
      → get_elem? ts i ≡ some t
      → meets_of (set ts i (record t { status = u })) ≡ meets_of ts
  meets_of-set [] i t u h = refl
  meets_of-set (x ∷ xs) zero t u h = ground arith
  meets_of-set (x ∷ xs) (suc i) t u h = ap (◌∷◌ x.meets) (meets_of-set xs i t u h)

  meets_of-start :
      (meets : List (Result E A))
      → meets_of (map (λ r. record { meets = r; status = waiting }) meets) ≡ meets
  meets_of-start [] = refl
  meets_of-start (r ∷ rs) = ap (◌∷◌ r) (meets_of-start rs)

  pub get_elem?-meets_of :
      (ts : List (Task E A)) (i : ℕ) (t : Task E A)
      → get_elem? ts i ≡ some t
      → get_elem? (meets_of ts) i ≡ some t.meets
  get_elem?-meets_of [] i t h = cc
  get_elem?-meets_of (x ∷ xs) zero t h = ground arith
  get_elem?-meets_of (x ∷ xs) (suc i) t h = get_elem?-meets_of xs i t h

  value_of-some : (u : Status) (r : Result E A) (a : A) → value_of u r ≡ some a → r ≡ ok a
  value_of-some finished (ok b) a h = ground arith
  value_of-some finished (err e) a h = absurd (ground arith)
  value_of-some waiting r a h = absurd (ground arith)
  value_of-some in_flight r a h = absurd (ground arith)

  collect-some :
      (ts : List (Task E A)) (vs : List A) → collect ts ≡ some vs → meets_of ts ≡ map ok vs
  unfolding collect
  collect-some [] vs h = ground arith
  collect-some (t ∷ ts) vs h = elim (Option-cases (value_of t.status t.meets)) [
    | inl missing ↦ absurd (ground arith)
    | inr (a, e) ↦ elim (Option-cases (collect ts)) [
      | inl missing ↦ absurd (ground arith)
      | inr (as', e') ↦
          let split : vs ≡ a ∷ as' = ground arith in
          rw split (cc (value_of-some t.status t.meets a e, collect-some ts as' e'))
    ]
  ]

  -- one of the results is the exception
  abbrev pub Raises : E → List (Result E A) → Type 0
  Raises e rs = (i : ℕ) × (get_elem? rs i ≡ some (err e))

  pub record IsGathered (meets : List (Result E A)) (s : FanOut E A) : Type 0 where
    pub kept : meets_of s.tasks ≡ meets
    pub good : (vs : List A) → s.outcome ≡ some (ok vs) → meets ≡ map ok vs
    pub bad : (e : E) → s.outcome ≡ some (err e) → Raises e meets

  gathered-some :
      (o : Option (List A)) (vs : List A) → gathered {E = E} o ≡ some (ok vs) → o ≡ some vs
  gathered-some none vs h = cc
  gathered-some (some ws) vs h = ground arith

  gathered-err : (o : Option (List A)) (e : E) → ¬ (gathered o ≡ some (err e))
  gathered-err none e h = cc
  gathered-err (some ws) e h = cc

  step-IsGathered :
      (meets : List (Result E A)) (m : Move) (s s' : FanOut E A)
      → step m s ≡ some s'
      → IsGathered meets s
      → IsGathered meets s'
  step-IsGathered meets (acquire i) s s' h g =
      let a = step-acquire i s s' h in
      rw a.eq (record {
        kept = meets_of-set s.tasks i a.task in_flight a.found ∙ g.kept;
        good = g.good;
        bad = g.bad;
      })
  step-IsGathered meets (complete i) s s' h g =
      let c = step-complete i s s' h in
      let tasks = set s.tasks i (record c.task { status = finished }) in
      let kept : meets_of tasks ≡ meets = meets_of-set s.tasks i c.task finished c.found ∙ g.kept in
      rw c.eq (record {
        kept = kept;
        good = λ vs o. good tasks kept s.outcome c.task.meets vs g.good o;
        bad = λ e o.
            bad tasks s.outcome c.task.meets e g.bad
              (i, rw (← g.kept) (get_elem?-meets_of s.tasks i c.task c.found)) o;
      })
    where
      good :
          (tasks : List (Task E A))
          → meets_of tasks ≡ meets
          → (o : Option (Result E (List A))) (r : Result E A) (vs : List A)
          → ((ws : List A) → o ≡ some (ok ws) → meets ≡ map ok ws)
          → after o r tasks ≡ some (ok vs)
          → meets ≡ map ok vs
      good tasks kept (some o) r vs old h' = old vs h'
      good tasks kept none (err e) vs old h' = absurd (ground arith)
      good tasks kept none (ok a) vs old h' =
          sym kept ∙ collect-some tasks vs (gathered-some (collect tasks) vs h')

      bad :
          (tasks : List (Task E A)) (o : Option (Result E (List A))) (r : Result E A) (e : E)
          → ((e' : E) → o ≡ some (err e') → Raises e' meets)
          → (j : ℕ) × (get_elem? meets j ≡ some r)
          → after o r tasks ≡ some (err e)
          → Raises e meets
      bad tasks (some o) r e old here h' = old e h'
      bad tasks none (err e') e old (j, here) h' = (j, ground arith)
      bad tasks none (ok a) e old here h' = absurd (gathered-err (collect tasks) e h')

  start-IsGathered :
      (concurrency : ℤ) (meets : List (Result E A)) → IsGathered meets (start concurrency meets)
  unfolding start
  start-IsGathered concurrency meets = record {
    kept = meets_of-start meets;
    good = λ vs h. sym (meets_of-start meets) ∙ collect-some _ vs (gathered-some _ vs h);
    bad = λ e h. absurd (gathered-err _ e h);
  }

  -- In every order of the event loop: when the fan-out returns, every call has ended well and the
  -- values are those of the calls in the order of the items; when it raises, one of the calls has
  -- raised that exception.
  pub fan_out_outcome :
      (concurrency : ℤ) (meets : List (Result E A)) (ms : List Move) (s : FanOut E A)
      → run ms (start concurrency meets) ≡ some s
      → ((vs : List A) → s.outcome ≡ some (ok vs) → meets ≡ map ok vs)
        × ((e : E) → s.outcome ≡ some (err e) → Raises e meets)
  fan_out_outcome concurrency meets ms s h =
      let g =
        run-keeps (IsGathered meets) (step-IsGathered meets) ms (start concurrency meets) s h
          (start-IsGathered concurrency meets) in
      (g.good, g.bad)
