-- ===== src/ServiceA/Queue/Moves.antt =====
-- services/service-a/app/worker.py: what a move of the queue pipeline needs, and what it does.
use cloud_microservices.Prelude.{
  ℕ, ◌-◌, ◌≡◌, refl, subst, Option, none, some, List, [], ◌∷◌, inl, inr, Option-cases, arith,
  get_elem?, set,
}
use cloud_microservices.ServiceA.Queue.{
  Item, Pipeline, Move, take_item, end_item, results_after, failures_after, take_at, end_at, step,
  run,
}

module _ {E A : Type 0} (w : ℕ) (s s' : Pipeline E A) where
  pub record Takes : Type 0 where
    pub item : Item E A
    pub rest : List (Item E A)
    pub queue : s.queue ≡ item ∷ rest
    pub idle : get_elem? s.workers w ≡ some none
    pub eq : s' ≡ record s { queue = rest; workers = set s.workers w (some item) }

  pub record Finishes : Type 0 where
    pub item : Item E A
    pub busy : get_elem? s.workers w ≡ some (some item)
    pub eq : s' ≡ record s {
      workers = set s.workers w none;
      results = results_after item s.results;
      failures = failures_after item s.failures;
      unfinished = s.unfinished - 1;
    }

  takes :
      (o : Option (Option (Item E A))) (q : List (Item E A))
      → get_elem? s.workers w ≡ o
      → s.queue ≡ q
      → take_at w o q s ≡ some s'
      → Takes
  takes (some none) (item ∷ rest) e f h = record {
    item = item;
    rest = rest;
    queue = f;
    idle = e;
    eq = ground arith;
  }
  takes (some none) [] e f h = absurd (ground arith)
  takes (some (some i)) q e f h = absurd (ground arith)
  takes none q e f h = absurd (ground arith)

  pub step-take_item : step (take_item w) s ≡ some s' → Takes
  unfolding step
  step-take_item h = takes (get_elem? s.workers w) s.queue refl refl h

  finishes :
      (o : Option (Option (Item E A)))
      → get_elem? s.workers w ≡ o
      → end_at w o s ≡ some s'
      → Finishes
  finishes (some (some item)) e h = record { item = item; busy = e; eq = ground arith }
  finishes (some none) e h = absurd (ground arith)
  finishes none e h = absurd (ground arith)

  pub step-end_item : step (end_item w) s ≡ some s' → Finishes
  unfolding step
  step-end_item h = finishes (get_elem? s.workers w) refl h

-- what every move keeps holds in every state that a schedule reaches
pub run-keeps :
    {E A : Type 0} (P : Pipeline E A → Type 0)
    → ((m : Move) (s s' : Pipeline E A) → step m s ≡ some s' → P s → P s')
    → (ms : List Move) (s s' : Pipeline E A) → run ms s ≡ some s'
    → P s
    → P s'
unfolding run
run-keeps P keeps [] s s' h p = subst P (ground arith) p
run-keeps P keeps (m ∷ ms) s s' h p = elim (Option-cases (step m s)) [
  | inl stuck ↦ absurd (ground arith)
  | inr (t, e) ↦ run-keeps P keeps ms t s' (ground arith) (keeps m s t e p)
]
