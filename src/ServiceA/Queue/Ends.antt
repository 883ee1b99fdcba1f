-- ===== src/ServiceA/Queue/Ends.antt =====
-- services/service-a/app/worker.py: the queue pipeline comes to an end, with a bounded pool.
use cloud_microservices.Prelude.{
  ℕ, suc, ◌+◌, ◌-◌, ◌*◌, ◌≤◌, ◌<◌, ◌≡◌, ◌≢◌, refl, ap, ◌∙◌, ◌⊎◌, inl, inr, Option, none, some, List,
  [], ◌∷◌, arith, ℤ, at_least_one, at_least_one-pos, get_elem?, set, length, Result, Option-cases,
  length-set, length-replicate,
}
use cloud_microservices.ServiceA.Queue.{
  Item, Pipeline, Move, take_item, end_item, start, results_after, failures_after, step, run,
  answer,
}
use cloud_microservices.ServiceA.Queue.Moves.{step-take_item, step-end_item, run-keeps}
use cloud_microservices.ServiceA.Queue.Places.{busy_count, busy_count-set, busy_count-replicate}
use cloud_microservices.ServiceA.Queue.Outcome.{IsPipeline, step-IsPipeline}
use cloud_microservices.ServiceA.Queue.Answer.{length-enumerate, start-IsPipeline}

module _ {E A : Type 0} where
  -- how many moves are still to come
  abbrev pub to_come : Pipeline E A → ℕ
  to_come s = 2 * length s.queue + busy_count s.workers

  step-to_come :
      (m : Move) (s s' : Pipeline E A)
      → step m s ≡ some s'
      → (to_come s' + 1 ≡ to_come s) × (length s'.workers ≡ length s.workers)
  step-to_come (take_item w) s s' h =
      let t = step-take_item w s s' h in
      let b = busy_count-set s.workers w none (some t.item) t.idle in
      let n : length s.queue ≡ suc (length t.rest) = ap length t.queue in
      rw t.eq (omega (arith, b, n), length-set s.workers w (some t.item))
  step-to_come (end_item w) s s' h =
      let t = step-end_item w s s' h in
      let b = busy_count-set s.workers w (some t.item) none t.busy in
      rw t.eq (omega (arith, b), length-set s.workers w none)

  run-to_come :
      (ms : List Move) (s s' : Pipeline E A)
      → run ms s ≡ some s'
      → (length ms + to_come s' ≡ to_come s) × (length s'.workers ≡ length s.workers)
  unfolding run
  run-to_come [] s s' h = rw (let e : s ≡ s' = ground arith in e) (omega arith, refl)
  run-to_come (m ∷ ms) s s' h = elim (Option-cases (step m s)) [
    | inl stuck ↦ absurd (ground arith)
    | inr (t, e) ↦
        let (n, l) = step-to_come m s t e in
        let (n', l') = run-to_come ms t s' (ground arith) in (omega (arith, n, n'), l' ∙ l)
  ]

  busy_count-le : (ws : List (Option (Item E A))) → busy_count ws ≤ length ws
  busy_count-le [] = omega arith
  busy_count-le (none ∷ ws) = omega (arith, busy_count-le ws)
  busy_count-le (some x ∷ ws) = omega (arith, busy_count-le ws)

  -- a worker that is busy, or else nobody is
  find_busy :
      (ws : List (Option (Item E A)))
      → ((w : ℕ) × (item : Item E A) × (get_elem? ws w ≡ some (some item))) ⊎ (busy_count ws ≡ 0)
  find_busy [] = inr refl
  find_busy (some x ∷ ws) = inl (0, x, refl)
  find_busy (none ∷ ws) = later (find_busy ws)
    where
      later :
          ((w : ℕ) × (item : Item E A) × (get_elem? ws w ≡ some (some item))) ⊎ (busy_count ws ≡ 0)
          → ((w : ℕ) × (item : Item E A) × (get_elem? (none ∷ ws) w ≡ some (some item)))
            ⊎ (0 + busy_count ws ≡ 0)
      later (inl (w, item, e)) = inl (suc w, item, e)
      later (inr z) = inr (omega (arith, z))

  head_idle :
      (ws : List (Option (Item E A)))
      → busy_count ws ≡ 0
      → 0 < length ws
      → get_elem? ws 0 ≡ some none
  head_idle [] z h = absurd (omega arith)
  head_idle (none ∷ ws) z h = refl
  head_idle (some x ∷ ws) z h = absurd (omega arith)

  enabled :
      (s : Pipeline E A)
      → 0 < length s.workers
      → 0 < to_come s
      → (m : Move) × (s' : Pipeline E A) × (step m s ≡ some s')
  unfolding step
  enabled s pool more = elim (find_busy s.workers) [
    | inl (w, item, e) ↦ (
      end_item w,
      record s {
        workers = set s.workers w none;
        results = results_after item s.results;
        failures = failures_after item s.failures;
        unfinished = s.unfinished - 1;
      },
      ground arith,
    )
    | inr quiet ↦ take s.queue refl (head_idle s.workers quiet pool) (omega (arith, quiet))
  ]
    where
      take :
          (q : List (Item E A))
          → s.queue ≡ q
          → get_elem? s.workers 0 ≡ some none
          → 0 < length s.queue
          → (m : Move) × (s' : Pipeline E A) × (step m s ≡ some s')
      take [] e idle h = absurd (let z : length s.queue ≡ 0 = ap length e in omega (arith, z))
      take (item ∷ rest) e idle h = (
        take_item 0,
        record s { queue = rest; workers = set s.workers 0 (some item) },
        ground arith,
      )

  answer-ne-none : (z : A) (s : Pipeline E A) → s.unfinished ≡ 0 → answer z s ≢ none
  unfolding answer
  answer-ne-none z s h e = absurd (ground arith)

  -- The pipeline always comes to an answer, and never more than `max(1, workers)` calls of `work_fn`
  -- run at a time. A schedule of `n` items has at most `2 n` moves; as long as it has fewer, a further
  -- move is possible; and when it has them all, every item is marked done and there is an answer.
  pub queue_ends :
      (z : A) (workers : ℤ) (meets : List (Result E A)) (ms : List Move) (s : Pipeline E A)
      → run ms (start workers meets) ≡ some s
      → (busy_count s.workers ≤ at_least_one workers)
        × (length ms ≤ 2 * length meets)
        × (length ms < 2 * length meets → (m : Move) × (s' : Pipeline E A) × (step m s ≡ some s'))
        × (length ms ≡ 2 * length meets → answer z s ≢ none)
  queue_ends z workers meets ms s h =
      let (total, pool) = run-to_come ms (start workers meets) s h in
      let all : length ms + to_come s ≡ 2 * length meets =
        total
        ∙ unfold start in
          omega
            (arith, length-enumerate 0 meets, busy_count-replicate E A (at_least_one workers)) in
      let size : length s.workers ≡ at_least_one workers =
        pool ∙ unfold start in length-replicate (at_least_one workers) none in
      let p =
        run-keeps (IsPipeline meets) (step-IsPipeline meets) ms (start workers meets) s h
          (start-IsPipeline workers meets) in
      (
        omega (arith, size, busy_count-le s.workers),
        omega (arith, all),
        λ more. enabled s (omega (arith, size, at_least_one-pos workers)) (omega (arith, all)),
        λ last. answer-ne-none z s (omega (arith, all, p.pending)),
      )
