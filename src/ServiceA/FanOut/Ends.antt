-- ===== src/ServiceA/FanOut/Ends.antt =====
-- services/service-a/app/worker.py: every schedule of the fan-out leads to an answer of `gather`.
use cloud_microservices.Prelude.{
  ℕ, zero, suc, ◌+◌, ◌*◌, ◌≤◌, ◌<◌, ◌≡◌, ◌≢◌, refl, ◌∙◌, Option, none, some, List, [], ◌∷◌, map,
  arith, ℤ, get_elem?, set, Result, ok, err, length, All,
}
use cloud_microservices.ServiceA.FanOut.{
  Status, waiting, in_flight, finished, Task, FanOut, Move, acquire, complete, value_of, cons_value,
  collect, gathered, after, start, step, run,
}
use cloud_microservices.ServiceA.FanOut.Moves.{step-acquire, step-complete, run-keeps}
use cloud_microservices.ServiceA.FanOut.Bounds.{weight}
use cloud_microservices.ServiceA.FanOut.Progress.{
  remaining, weight-start_remaining, run-remaining, step_enabled,
}

module _ {E A : Type 0} where
  -- no task has ended with an exception
  abbrev pub IsGood : Status → Result E A → Type 0
  IsGood finished (err e) = ⊥
  IsGood _ _ = Unit

  abbrev pub NoError : List (Task E A) → Type 0
  NoError = All (λ t. IsGood t.status t.meets)

  -- nothing has been returned yet, although the values are there or an exception is
  pub record IsPending (s : FanOut E A) : Type 0 where
    pub pending : s.outcome ≡ none → (collect s.tasks ≡ none) × NoError s.tasks

  collect-open :
      (ts : List (Task E A)) (i : ℕ) (t : Task E A)
      → get_elem? ts i ≡ some t
      → value_of t.status t.meets ≡ none
      → collect ts ≡ none
  unfolding collect
  collect-open [] i t h e = cc
  collect-open (x ∷ xs) zero t h e = ground arith
  collect-open (x ∷ xs) (suc i) t h e = ground (arith, collect-open xs i t h e)

  get_elem?-set :
      (ts : List (Task E A)) (i : ℕ) (t u : Task E A)
      → get_elem? ts i ≡ some t
      → get_elem? (set ts i u) i ≡ some u
  get_elem?-set [] i t u h = cc
  get_elem?-set (x ∷ xs) zero t u h = refl
  get_elem?-set (x ∷ xs) (suc i) t u h = get_elem?-set xs i t u h

  NoError-set :
      (ts : List (Task E A)) (i : ℕ) (u : Task E A)
      → IsGood u.status u.meets
      → NoError ts
      → NoError (set ts i u)
  NoError-set [] i u g h = tt
  NoError-set (x ∷ xs) zero u g h = (g, h.1)
  NoError-set (x ∷ xs) (suc i) u g h = (h.0, NoError-set xs i u g h.1)

  collect-total :
      (ts : List (Task E A))
      → NoError ts
      → weight remaining ts ≡ 0
      → (vs : List A) × (collect ts ≡ some vs)
  unfolding collect
  collect-total [] g h = ([], refl)
  collect-total (t ∷ ts) g h =
      let (vs, e) = collect-total ts g.1 (omega arith) in go t.status t.meets g.0 (omega arith) vs e
    where
      go :
          (u : Status) (r : Result E A)
          → IsGood u r
          → remaining u ≡ 0
          → (vs : List A) → collect ts ≡ some vs
          → (ws : List A) × ((elim (value_of u r) as (λ _. Option (List A)) [
            | none ↦ none
            | some a ↦ cons_value a (collect ts)
          ])
              ≡ some ws)
      go finished (ok a) good z vs e = (a ∷ vs, rw e)
      go finished (err e') good z vs e = absurd good
      go waiting r good z vs e = absurd (omega arith)
      go in_flight r good z vs e = absurd (omega arith)

  gathered-none : (o : Option (List A)) → gathered {E = E} o ≡ none → o ≡ none
  gathered-none none h = refl
  gathered-none (some vs) h = absurd (ground arith)

  step-IsPending : (m : Move) (s s' : FanOut E A) → step m s ≡ some s' → IsPending s → IsPending s'
  step-IsPending (acquire i) s s' h p =
      let a = step-acquire i s s' h in
      let u = record a.task { status = in_flight } in
      rw a.eq (record {
        pending = λ o. (
          collect-open (set s.tasks i u) i u (get_elem?-set s.tasks i a.task u a.found) refl,
          NoError-set s.tasks i u tt (p.pending o).1,
        );
      })
  step-IsPending (complete i) s s' h p =
      let c = step-complete i s s' h in
      let u = record c.task { status = finished } in
      rw c.eq (record { pending = λ o. go s.outcome c.task.meets p.pending o })
    where
      go :
          (o : Option (Result E (List A))) (r : Result E A)
          → (o ≡ none → (collect s.tasks ≡ none) × NoError s.tasks)
          → after o r (set s.tasks i (record { meets = r; status = finished })) ≡ none
          → (collect (set s.tasks i (record { meets = r; status = finished })) ≡ none)
            × NoError (set s.tasks i (record { meets = r; status = finished }))
      go (some o) r old h' = absurd (ground arith)
      go none (err e) old h' = absurd (ground arith)
      go none (ok a) old h' = (gathered-none _ h', NoError-set s.tasks i _ tt (old refl).1)

  start-NoError :
      (meets : List (Result E A))
      → NoError (map (λ r. record { meets = r; status = waiting }) meets)
  start-NoError [] = tt
  start-NoError (r ∷ rs) = (tt, start-NoError rs)

  start-IsPending :
      (concurrency : ℤ) (meets : List (Result E A)) → IsPending (start concurrency meets)
  unfolding start
  start-IsPending concurrency meets = record {
    pending = λ o. (gathered-none _ o, start-NoError meets);
  }

  -- The fan-out always comes to an answer. A schedule of `n` items has at most `2 n` moves; as long
  -- as it has fewer, a further move is possible; and when it has them all, `gather` has answered.
  pub fan_out_ends :
      (concurrency : ℤ) (meets : List (Result E A)) (ms : List Move) (s : FanOut E A)
      → run ms (start concurrency meets) ≡ some s
      → (length ms ≤ 2 * length meets)
        × (length ms < 2 * length meets → (m : Move) × (s' : FanOut E A) × (step m s ≡ some s'))
        × (length ms ≡ 2 * length meets → s.outcome ≢ none)
  fan_out_ends concurrency meets ms s h =
      let total : length ms + weight remaining s.tasks ≡ 2 * length meets =
        run-remaining ms (start concurrency meets) s h
        ∙ unfold start in weight-start_remaining meets in
      let p =
        run-keeps IsPending step-IsPending ms (start concurrency meets) s h
          (start-IsPending concurrency meets) in
      (
        omega (arith, total),
        λ more. step_enabled concurrency meets ms s h (omega (arith, total)),
        λ all o.
            let (c, g) = p.pending o in
            let (vs, e) = collect-total s.tasks g (omega (arith, total)) in absurd (ground arith),
      )
