-- ===== src/ServiceA/Queue/Answer.antt =====
-- services/service-a/app/worker.py: the answer of the queue pipeline, whatever the order of the event loop.
use native.Mathlib.Nat.{add-zero, zero-add}
use cloud_microservices.Prelude.{
  ℕ, zero, suc, ◌+◌, ◌≡◌, refl, ap, subst, inl, inr, Option, none, some, List, [], ◌∷◌, map, arith,
  ℤ, at_least_one, get_elem?, length, Result, ok, err, All, All-replicate, length-replicate,
}
use cloud_microservices.ServiceA.Queue.{
  Item, Pipeline, Move, enumerate, start, run, or_zero, answer,
}
use cloud_microservices.ServiceA.Queue.Moves.{run-keeps}
use cloud_microservices.ServiceA.Queue.Places.{
  busy_count, busy_count-replicate, InQueue, InWork, Fits, FitsWork,
}
use cloud_microservices.ServiceA.Queue.Outcome.{Raises, Placed, IsPipeline, step-IsPipeline}

module _ {E A : Type 0} where
  enumerate-Fits :
      (meets : List (Result E A)) (k : ℕ) (rs : List (Result E A))
      → ((i : ℕ) (r : Result E A) → get_elem? rs i ≡ some r → get_elem? meets (k + i) ≡ some r)
      → All (Fits meets) (enumerate k rs)
  enumerate-Fits meets k [] h = tt
  enumerate-Fits meets k (r ∷ rs) h = (
    rw add-zero at (h 0 r refl),
    enumerate-Fits meets (k + 1) rs
        (λ i x e. let p : k + 1 + i ≡ k + suc i = omega arith in rw p (h (suc i) x e)),
  )

  enumerate-InQueue :
      (k : ℕ) (rs : List (Result E A)) (i : ℕ) (r : Result E A)
      → get_elem? rs i ≡ some r
      → InQueue (k + i) (enumerate k rs)
  enumerate-InQueue k [] i r h = absurd (ground arith)
  enumerate-InQueue k (x ∷ xs) zero r h = inl (add-zero k)
  enumerate-InQueue k (x ∷ xs) (suc i) r h = inr (
      let p : k + 1 + i ≡ k + suc i = omega arith in
      subst (λ j. InQueue j (enumerate (k + 1) xs)) p (enumerate-InQueue (k + 1) xs i r h))

  pub length-enumerate : (k : ℕ) (rs : List (Result E A)) → length (enumerate k rs) ≡ length rs
  length-enumerate k [] = refl
  length-enumerate k (r ∷ rs) = ap suc (length-enumerate (k + 1) rs)

  pub start-IsPipeline :
      (workers : ℤ) (meets : List (Result E A)) → IsPipeline meets (start workers meets)
  unfolding start
  start-IsPipeline workers meets = record {
    queued = enumerate-Fits meets 0 meets (λ i r h. rw zero-add h);
    worked = All-replicate (FitsWork meets) (at_least_one workers) none tt;
    placed = λ i r h.
        inl (
          subst (λ j. InQueue j (enumerate 0 meets)) (zero-add i)
            (enumerate-InQueue 0 meets i r h));
    failed = tt;
    size = length-replicate (length meets) none;
    pending =
        omega (arith, length-enumerate 0 meets, busy_count-replicate E A (at_least_one workers));
  }

  -- values in the right places are the values in order
  values_of :
      (z : A) (meets : List (Result E A)) (results : List (Option A))
      → length results ≡ length meets
      → ((i : ℕ) (r : Result E A)
          → get_elem? meets i ≡ some r
          → (a : A) × (r ≡ ok a) × (get_elem? results i ≡ some (some a)))
      → meets ≡ map ok (map (or_zero z) results)
  values_of z [] [] h at = refl
  values_of z [] (x ∷ xs) h at = absurd (omega arith)
  values_of z (r ∷ rs) [] h at = absurd (omega arith)
  values_of z (r ∷ rs) (x ∷ xs) h at =
      let (a, e, found) = at 0 r refl in
      let ih = values_of z rs xs (omega arith) (λ i r' e'. at (suc i) r' e') in
      let v : or_zero z x ≡ a = ground arith in cc (v, e, ih)

  no_queue : (i : ℕ) (q : List (Item E A)) → length q ≡ 0 → ¬ InQueue i q
  no_queue i [] h p = p
  no_queue i (x ∷ xs) h p = absurd (omega arith)

  no_work : (i : ℕ) (ws : List (Option (Item E A))) → busy_count ws ≡ 0 → ¬ InWork i ws
  no_work i [] h p = p
  no_work i (none ∷ ws) h p = no_work i ws (omega arith) p
  no_work i (some x ∷ ws) h p = absurd (omega arith)

  answered :
      (z : A) (meets : List (Result E A)) (s : Pipeline E A)
      → IsPipeline meets s
      → s.unfinished ≡ 0
      → s.failures ≡ []
      → meets ≡ map ok (map (or_zero z) s.results)
  answered z meets s p none_left none_failed =
      values_of z meets s.results p.size (λ i r e. there i r (p.placed i r e))
    where
      there :
          (i : ℕ) (r : Result E A)
          → Placed meets s i r
          → (a : A) × (r ≡ ok a) × (get_elem? s.results i ≡ some (some a))
      there i r (inl q) = absurd (no_queue i s.queue (omega (arith, p.pending)) q)
      there i r (inr (inl w)) = absurd (no_work i s.workers (omega (arith, p.pending)) w)
      there i r (inr (inr (inl done))) = done
      there i r (inr (inr (inr failed))) = absurd (failed none_failed)

  -- Whatever the order of the event loop: when the pipeline returns, every `work_fn` has ended well,
  -- and the values are theirs in the order of the items, so the `0.0` for a missing result is never
  -- used. When it raises, it raises the exception of one of the items.
  pub queue_answer :
      (z : A) (workers : ℤ) (meets : List (Result E A)) (ms : List Move) (s : Pipeline E A)
      → run ms (start workers meets) ≡ some s
      → ((vs : List A) → answer z s ≡ some (ok vs) → meets ≡ map ok vs)
        × ((e : E) → answer z s ≡ some (err e) → Raises meets e)
  unfolding answer
  queue_answer z workers meets ms s h = (returns s.failures refl, raises s.failures refl)
    where
      p : IsPipeline meets s
      p =
          run-keeps (IsPipeline meets) (step-IsPipeline meets) ms (start workers meets) s h
            (start-IsPipeline workers meets)

      returns :
          (fs : List E)
          → s.failures ≡ fs
          → (vs : List A) → answer z s ≡ some (ok vs)
          → meets ≡ map ok vs
      returns [] f vs a =
          let e : map (or_zero z) s.results ≡ vs = ground arith in
          rw (← e) (answered z meets s p (ground arith) f)
      returns (x ∷ xs) f vs a = absurd (ground arith)

      raises :
          (fs : List E) → s.failures ≡ fs → (e : E) → answer z s ≡ some (err e) → Raises meets e
      raises [] f e a = absurd (ground arith)
      raises (x ∷ xs) f e a =
          let q = subst (All (Raises meets)) f p.failed in
          let x≡e : x ≡ e = ground arith in subst (Raises meets) x≡e q.0
