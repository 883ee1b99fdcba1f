-- ===== src/ServiceA/Queue/Outcome.antt =====
-- services/service-a/app/worker.py: what the queue pipeline returns or raises.
use cloud_microservices.Prelude.{
  ℕ, suc, ◌+◌, ◌<◌, ◌≡◌, ◌≢◌, refl, sym, ap, subst, ◌∙◌, ◌⊎◌, inl, inr, Option, none, some, List,
  [], ◌∷◌, ◌++◌, arith, get_elem?, set, length, Result, ok, err, All, All-append, All-set, All-at,
  length-set, get_elem?-set_self, get_elem?-set_ne, get_elem?-lt,
}
use native.Mathlib.Decide.{ℕ_discrete}
use cloud_microservices.ServiceA.Queue.{
  Item, Pipeline, Move, take_item, end_item, results_after, failures_after, step,
}
use cloud_microservices.ServiceA.Queue.Moves.{step-take_item, step-end_item}
use cloud_microservices.ServiceA.Queue.Places.{
  busy_count, busy_count-set, InQueue, InWork, InWork-set_new, InWork-set_old, InWork-set_free,
  Fits, FitsWork,
}

module _ {E A : Type 0} (meets : List (Result E A)) where
  abbrev pub Raises : E → Type 0
  Raises e = (i : ℕ) × (get_elem? meets i ≡ some (err e))

  -- The item of an index is queued, at work, or done with its value; or an item has failed.
  abbrev pub Placed : Pipeline E A → ℕ → Result E A → Type 0
  Placed s i r =
      InQueue i s.queue
      ⊎ InWork i s.workers
      ⊎ ((a : A) × (r ≡ ok a) × (get_elem? s.results i ≡ some (some a)))
      ⊎ (s.failures ≢ [])

  pub record IsPipeline (s : Pipeline E A) : Type 0 where
    pub queued : All (Fits meets) s.queue
    pub worked : All (FitsWork meets) s.workers
    pub placed : (i : ℕ) (r : Result E A) → get_elem? meets i ≡ some r → Placed s i r
    pub failed : All Raises s.failures
    pub size : length s.results ≡ length meets
    pub pending : s.unfinished ≡ length s.queue + busy_count s.workers

  take-Placed :
      (w : ℕ) (s : Pipeline E A) (item : Item E A) (rest : List (Item E A)) (i : ℕ) (r : Result E A)
      → s.queue ≡ item ∷ rest
      → get_elem? s.workers w ≡ some none
      → Placed s i r
      → Placed (record s { queue = rest; workers = set s.workers w (some item) }) i r
  take-Placed w s item rest i r q idle (inl queued) = go (subst (InQueue i) q queued)
    where
      go :
          InQueue i (item ∷ rest)
          → Placed (record s { queue = rest; workers = set s.workers w (some item) }) i r
      go (inl here) = inr (
          inl (
            subst (λ j. InWork j (set s.workers w (some item))) (sym here)
              (InWork-set_new s.workers w item idle)))
      go (inr later) = inl later
  take-Placed w s item rest i r q idle (inr (inl work)) =
      inr (inl (InWork-set_old i s.workers w item idle work))
  take-Placed w s item rest i r q idle (inr (inr done)) = inr (inr done)

  append-ne-nil : {B : Type 0} (xs : List B) (x : B) → xs ++ x ∷ [] ≢ []
  append-ne-nil [] x h = cc
  append-ne-nil (y ∷ ys) x h = cc

  -- what ending an item does to the place of an index
  end-Placed :
      (w : ℕ) (s : Pipeline E A) (item : Item E A) (i : ℕ) (r : Result E A)
      → get_elem? s.workers w ≡ some (some item)
      → get_elem? meets item.0 ≡ some item.1
      → get_elem? meets i ≡ some r
      → item.0 < length s.results
      → Placed s i r
      → InQueue i s.queue
        ⊎ InWork i (set s.workers w none)
        ⊎ ((a : A) × (r ≡ ok a) × (get_elem? (results_after item s.results) i ≡ some (some a)))
        ⊎ (failures_after item s.failures ≢ [])
  end-Placed w s (j, err e) i r b fits at lt p = inr (inr (inr (append-ne-nil s.failures e)))
  end-Placed w s (j, ok a) i r b fits at lt (inl queued) = inl queued
  end-Placed w s (j, ok a) i r b fits at lt (inr (inr (inr failed))) = inr (inr (inr failed))
  end-Placed w s (j, ok a) i r b fits at lt (inr (inl work)) =
      go (InWork-set_free i s.workers w (j, ok a) b work)
    where
      go :
          (i ≡ j) ⊎ InWork i (set s.workers w none)
          → InQueue i s.queue
            ⊎ InWork i (set s.workers w none)
            ⊎ ((a' : A) × (r ≡ ok a') × (get_elem? (set s.results j (some a)) i ≡ some (some a')))
            ⊎ (s.failures ≢ [])
      go (inl same) = inr (inr (inl (a, cc, rw same (get_elem?-set_self s.results j (some a) lt))))
      go (inr other) = inr (inl other)
  end-Placed w s (j, ok a) i r b fits at lt (inr (inr (inl (a', e, done)))) =
      elim (ℕ_discrete j i) [
        | yes same ↦
            inr (inr (inl (a, cc, rw (← same) (get_elem?-set_self s.results j (some a) lt))))
        | no other ↦ inr (inr (inl (a', e, get_elem?-set_ne s.results j i (some a) other ∙ done)))
      ]

  pub step-IsPipeline :
      (m : Move) (s s' : Pipeline E A) → step m s ≡ some s' → IsPipeline s → IsPipeline s'
  step-IsPipeline (take_item w) s s' h p =
      let t = step-take_item w s s' h in
      let q = subst (All (Fits meets)) t.queue p.queued in
      rw t.eq (record {
        queued = q.1;
        worked = All-set (FitsWork meets) s.workers w (some t.item) q.0 p.worked;
        placed = λ i r e. take-Placed w s t.item t.rest i r t.queue t.idle (p.placed i r e);
        failed = p.failed;
        size = p.size;
        pending =
            let b = busy_count-set s.workers w none (some t.item) t.idle in
            let n : length s.queue ≡ suc (length t.rest) = ap length t.queue in
            omega (arith, p.pending, b, n);
      })
  step-IsPipeline (end_item w) s s' h p =
      let t = step-end_item w s s' h in
      let fits = All-at (FitsWork meets) s.workers w (some t.item) t.busy p.worked in
      let lt : t.item.0 < length s.results =
        rw p.size (get_elem?-lt meets t.item.0 t.item.1 fits) in
      rw t.eq (record {
        queued = p.queued;
        worked = All-set (FitsWork meets) s.workers w none tt p.worked;
        placed = λ i r e. end-Placed w s t.item i r t.busy fits e lt (p.placed i r e);
        failed = failures_kept t.item s.failures fits p.failed;
        size = results_size t.item s.results ∙ p.size;
        pending =
            let b = busy_count-set s.workers w (some t.item) none t.busy in
            omega (arith, p.pending, b);
      })
    where
      failures_kept :
          (item : Item E A) (fs : List E)
          → Fits meets item
          → All Raises fs
          → All Raises (failures_after item fs)
      failures_kept (i, ok a) fs fits old = old
      failures_kept (i, err e) fs fits old = All-append Raises fs (e ∷ []) old ((i, fits), tt)

      results_size :
          (item : Item E A) (rs : List (Option A)) → length (results_after item rs) ≡ length rs
      results_size (i, ok a) rs = length-set rs i (some a)
      results_size (i, err e) rs = refl
