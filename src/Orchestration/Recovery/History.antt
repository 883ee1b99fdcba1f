-- ===== src/Orchestration/Recovery/History.antt =====
-- orchestration/recovery.py: the property `history`, every event so far in the order of detection.
use mathlib.Core.List.{Perm}
use mathlib.Core.List.Perm
use cloud_microservices.Prelude.{
  All, Bool-cases, inl, inr, leb→le, leb-false→lt, ℕ, ◌≤◌, List, [], ◌∷◌, ◌++◌, arith, leb,
  if◌then◌else◌,
}
use cloud_microservices.Prelude.Dict.{Dict}
use cloud_microservices.Orchestration.Recovery.{RecoveryEvent, ServiceRuntime, RecoveryWatcher}

module _ {F : Type 0} where
  unfoldable pub concat_history : Dict (ServiceRuntime F) → List (RecoveryEvent F)
  concat_history [] = []
  concat_history ((name, rt) ∷ d) = rt.history ++ concat_history d

  -- `sorted` by the time of detection: an event goes before the first one that is later
  insert_event : RecoveryEvent F → List (RecoveryEvent F) → List (RecoveryEvent F)
  insert_event e [] = e ∷ []
  insert_event e (x ∷ xs) =
      if leb e.detected_at x.detected_at then e ∷ x ∷ xs else x ∷ insert_event e xs

  sorted_events : List (RecoveryEvent F) → List (RecoveryEvent F)
  sorted_events [] = []
  sorted_events (e ∷ es) = insert_event e (sorted_events es)

  -- the property `history`
  unfoldable pub history : RecoveryWatcher F → List (RecoveryEvent F)
  unfolding concat_history sorted_events insert_event
  history w = sorted_events (concat_history w.runtimes)

  -- each event is detected no later than those behind it
  abbrev pub InOrder : List (RecoveryEvent F) → Type 0
  InOrder [] = Unit
  InOrder (e ∷ es) = All (λ x. e.detected_at ≤ x.detected_at) es × InOrder es

  insert_event-All :
      (n : ℕ) (e : RecoveryEvent F) (es : List (RecoveryEvent F))
      → n ≤ e.detected_at
      → All (λ x. n ≤ x.detected_at) es
      → All (λ x. n ≤ x.detected_at) (insert_event e es)
  unfolding insert_event
  insert_event-All n e [] a h = (a, tt)
  insert_event-All n e (x ∷ xs) a h = ground (arith, insert_event-All n e xs a h.1)

  All-weaken :
      (m n : ℕ) (es : List (RecoveryEvent F))
      → m ≤ n
      → All (λ x. n ≤ x.detected_at) es
      → All (λ x. m ≤ x.detected_at) es
  All-weaken m n [] a h = tt
  All-weaken m n (x ∷ xs) a h = (omega (arith, h.0), All-weaken m n xs a h.1)

  insert_event-InOrder :
      (e : RecoveryEvent F) (es : List (RecoveryEvent F)) → InOrder es → InOrder (insert_event e es)
  unfolding insert_event
  insert_event-InOrder e [] h = (tt, tt)
  insert_event-InOrder e (x ∷ xs) h = elim (Bool-cases (leb e.detected_at x.detected_at)) [
    | inl before ↦
        let le = leb→le e.detected_at x.detected_at before in
        rw before ((le, All-weaken e.detected_at x.detected_at xs le h.0), h)
    | inr after ↦
        let lt = leb-false→lt e.detected_at x.detected_at after in
        rw after
          (insert_event-All x.detected_at e xs (omega arith) h.0, insert_event-InOrder e xs h.1)
  ]

  insert_event-Perm :
      (e : RecoveryEvent F) (es : List (RecoveryEvent F)) → Perm (insert_event e es) (e ∷ es)
  unfolding insert_event
  insert_event-Perm e [] = Perm.rfl
  insert_event-Perm e (x ∷ xs) = elim (Bool-cases (leb e.detected_at x.detected_at)) [
    | inl before ↦ rw before Perm.rfl
    | inr after ↦ rw after (Perm.trans (Perm.cons x (insert_event-Perm e xs)) (Perm.swap e x xs))
  ]

  sorted_events-InOrder : (es : List (RecoveryEvent F)) → InOrder (sorted_events es)
  unfolding sorted_events
  sorted_events-InOrder [] = tt
  sorted_events-InOrder (e ∷ es) =
      insert_event-InOrder e (sorted_events es) (sorted_events-InOrder es)

  sorted_events-Perm : (es : List (RecoveryEvent F)) → Perm (sorted_events es) es
  unfolding sorted_events
  sorted_events-Perm [] = Perm.rfl
  sorted_events-Perm (e ∷ es) =
      Perm.trans (insert_event-Perm e (sorted_events es)) (Perm.cons e (sorted_events-Perm es))

  -- The history is in the order of detection, and holds exactly the events of all services, each as often
  -- as its service's runtime does.
  pub history_lem :
      (w : RecoveryWatcher F) → InOrder (history w) × Perm (history w) (concat_history w.runtimes)
  unfolding history
  history_lem w = (
    sorted_events-InOrder (concat_history w.runtimes),
    sorted_events-Perm (concat_history w.runtimes),
  )
