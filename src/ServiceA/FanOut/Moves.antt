-- ===== src/ServiceA/FanOut/Moves.antt =====
-- services/service-a/app/worker.py: what a move of the fan-out needs, and what it does.
use cloud_microservices.Prelude.{
  ℕ, zero, suc, ◌+◌, ◌≡◌, refl, subst, Option, none, some, List, [], ◌∷◌, inl, inr, Option-cases,
  arith, get_elem?, set,
}
use cloud_microservices.ServiceA.FanOut.{
  waiting, in_flight, finished, Task, FanOut, Move, acquire, complete, after, acquire_at,
  complete_at, step, run,
}

module _ {E A : Type 0} (i : ℕ) (s s' : FanOut E A) where
  pub record Acquires : Type 0 where
    pub left : ℕ
    pub task : Task E A
    pub permits : s.permits ≡ suc left
    pub found : get_elem? s.tasks i ≡ some task
    pub status : task.status ≡ waiting
    pub eq :
        s' ≡ record s { permits = left; tasks = set s.tasks i (record task { status = in_flight }) }

  pub record Completes : Type 0 where
    pub task : Task E A
    pub found : get_elem? s.tasks i ≡ some task
    pub status : task.status ≡ in_flight
    pub eq : s' ≡ record {
      permits = s.permits + 1;
      tasks = set s.tasks i (record task { status = finished });
      outcome = after s.outcome task.meets (set s.tasks i (record task { status = finished }));
    }

  acquires :
      (p : ℕ) (o : Option (Task E A))
      → s.permits ≡ p
      → get_elem? s.tasks i ≡ o
      → acquire_at i p o s ≡ some s'
      → Acquires
  acquires zero o e f h = absurd (ground arith)
  acquires (suc p) none e f h = absurd (ground arith)
  acquires (suc p) (some t) e f h = record {
    left = p;
    task = t;
    permits = e;
    found = f;
    status = ground arith;
    eq = ground arith;
  }

  pub step-acquire : step (acquire i) s ≡ some s' → Acquires
  unfolding step
  step-acquire h = acquires s.permits (get_elem? s.tasks i) refl refl h

  completes :
      (o : Option (Task E A)) → get_elem? s.tasks i ≡ o → complete_at i o s ≡ some s' → Completes
  completes none f h = absurd (ground arith)
  completes (some t) f h = record { task = t; found = f; status = ground arith; eq = ground arith }

  pub step-complete : step (complete i) s ≡ some s' → Completes
  unfolding step
  step-complete h = completes (get_elem? s.tasks i) refl h

-- what every move keeps holds in every state that a schedule reaches
pub run-keeps :
    {E A : Type 0} (P : FanOut E A → Type 0)
    → ((m : Move) (s s' : FanOut E A) → step m s ≡ some s' → P s → P s')
    → (ms : List Move) (s s' : FanOut E A) → run ms s ≡ some s'
    → P s
    → P s'
unfolding run
run-keeps P keeps [] s s' h p = subst P (ground arith) p
run-keeps P keeps (m ∷ ms) s s' h p = elim (Option-cases (step m s)) [
  | inl stuck ↦ absurd (ground arith)
  | inr (t, e) ↦ run-keeps P keeps ms t s' (ground arith) (keeps m s t e p)
]
