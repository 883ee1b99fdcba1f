-- ===== src/ServiceA/FanOut/Progress.antt =====
-- services/service-a/app/worker.py: the fan-out comes to an end.
use cloud_microservices.Prelude.{
  ℕ, suc, ◌+◌, ◌-◌, ◌*◌, ◌<◌, ◌≡◌, refl, ap, ◌⊎◌, some, List, [], ◌∷◌, map, arith, ℤ,
  at_least_one-pos, get_elem?, set, Result, inl, inr, Option-cases, length,
}
use cloud_microservices.ServiceA.FanOut.{
  Status, waiting, in_flight, finished, Task, FanOut, Move, acquire, complete, after, start, step,
  run,
}
use cloud_microservices.ServiceA.FanOut.Moves.{step-acquire, step-complete}
use cloud_microservices.ServiceA.FanOut.Bounds.{weight, weight-set, flying, fan_out_bound}

-- how many moves a task still needs
abbrev pub remaining : Status → ℕ
remaining waiting = 2
remaining in_flight = 1
remaining finished = 0

module _ {E A : Type 0} where
  pub weight-start_remaining :
      (meets : List (Result E A))
      → weight remaining (map (λ r. record { meets = r; status = waiting }) meets)
        ≡ 2 * length meets
  weight-start_remaining [] = refl
  weight-start_remaining (r ∷ rs) = omega (arith, weight-start_remaining rs)

  step-remaining :
      (m : Move) (s s' : FanOut E A)
      → step m s ≡ some s'
      → weight remaining s'.tasks + 1 ≡ weight remaining s.tasks
  step-remaining (acquire i) s s' h =
      let a = step-acquire i s s' h in
      let w =
        weight-set remaining s.tasks i a.task (record a.task { status = in_flight }) a.found in
      rw a.eq (omega (arith, w, ap remaining a.status))
  step-remaining (complete i) s s' h =
      let c = step-complete i s s' h in
      let w = weight-set remaining s.tasks i c.task (record c.task { status = finished }) c.found in
      rw c.eq (omega (arith, w, ap remaining c.status))

  pub run-remaining :
      (ms : List Move) (s s' : FanOut E A)
      → run ms s ≡ some s'
      → length ms + weight remaining s'.tasks ≡ weight remaining s.tasks
  unfolding run
  run-remaining [] s s' h = rw (let e : s ≡ s' = ground arith in e) (omega arith)
  run-remaining (m ∷ ms) s s' h = elim (Option-cases (step m s)) [
    | inl stuck ↦ absurd (ground arith)
    | inr (t, e) ↦ omega (arith, run-remaining ms t s' (ground arith), step-remaining m s t e)
  ]

  -- a task with the status
  abbrev At : Status → List (Task E A) → Type 0
  At u ts = (i : ℕ) × (t : Task E A) × (get_elem? ts i ≡ some t) × (t.status ≡ u)

  next-At : (u : Status) (x : Task E A) (xs : List (Task E A)) → At u xs → At u (x ∷ xs)
  next-At u x xs (i, t, found, status) = (suc i, t, found, status)

  find_flying : (ts : List (Task E A)) → At in_flight ts ⊎ (weight flying ts ≡ 0)
  find_flying [] = inr refl
  find_flying (t ∷ ts) = go t.status refl (find_flying ts)
    where
      go :
          (u : Status)
          → t.status ≡ u
          → At in_flight ts ⊎ (weight flying ts ≡ 0)
          → At in_flight (t ∷ ts) ⊎ (weight flying (t ∷ ts) ≡ 0)
      go in_flight e rest = inl (0, t, refl, e)
      go u e (inl later) = inl (next-At in_flight t ts later)
      go waiting e (inr quiet) = inr (rw e (omega (arith, quiet)))
      go finished e (inr quiet) = inr (rw e (omega (arith, quiet)))

  find_waiting :
      (ts : List (Task E A)) → weight flying ts ≡ 0 → 0 < weight remaining ts → At waiting ts
  find_waiting [] quiet h = absurd (omega arith)
  find_waiting (t ∷ ts) quiet h = go t.status refl (find_waiting ts)
    where
      go :
          (u : Status)
          → t.status ≡ u
          → (weight flying ts ≡ 0 → 0 < weight remaining ts → At waiting ts)
          → At waiting (t ∷ ts)
      go waiting e later = (0, t, refl, e)
      go in_flight e later = absurd (let z : flying t.status ≡ 1 = ap flying e in omega (arith, z))
      go finished e later =
          let z : remaining t.status ≡ 0 = ap remaining e in
          next-At waiting t ts (later (omega arith) (omega (arith, z)))

  acquire_enabled :
      (s : FanOut E A)
      → 0 < s.permits
      → At waiting s.tasks
      → (m : Move) × (s' : FanOut E A) × (step m s ≡ some s')
  unfolding step
  acquire_enabled s h (i, t, found, status) =
      let e : s.permits ≡ suc (s.permits - 1) = omega arith in
      (
        acquire i,
        record s {
          permits = s.permits - 1;
          tasks = set s.tasks i (record t { status = in_flight });
        },
        ground arith,
      )

  complete_enabled :
      (s : FanOut E A)
      → At in_flight s.tasks
      → (m : Move) × (s' : FanOut E A) × (step m s ≡ some s')
  unfolding step
  complete_enabled s (i, t, found, status) =
      let tasks = set s.tasks i (record t { status = finished }) in
      (
        complete i,
        record { permits = s.permits + 1; tasks = tasks; outcome = after s.outcome t.meets tasks },
        ground arith,
      )

  -- While a task is not finished some move is possible: the semaphore cannot block the fan-out.
  pub step_enabled :
      (concurrency : ℤ) (meets : List (Result E A)) (ms : List Move) (s : FanOut E A)
      → run ms (start concurrency meets) ≡ some s
      → 0 < weight remaining s.tasks
      → (m : Move) × (s' : FanOut E A) × (step m s ≡ some s')
  step_enabled concurrency meets ms s h more = elim (find_flying s.tasks) [
    | inl busy ↦ complete_enabled s busy
    | inr quiet ↦
        let (kept, bound) = fan_out_bound concurrency meets ms s h in
        acquire_enabled s (omega (arith, kept, quiet, at_least_one-pos concurrency))
          (find_waiting s.tasks quiet more)
  ]
