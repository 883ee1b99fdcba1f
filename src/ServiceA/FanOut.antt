-- ===== src/ServiceA/FanOut.antt =====
-- services/service-a/app/worker.py: `fan_out_to_service_b`. The tasks are a list in the order of the
-- items, and an event loop that runs them is a list of moves: a task takes the semaphore and sends
-- its request, or its exchange ends and it gives the semaphore back. `gather` answers with the first
-- exception in time, and else with all values when the last task ends.
mod Moves
pub mod Bounds
pub mod Outcome
pub mod Progress
pub mod Ends
use cloud_microservices.Prelude.{
  ℕ, zero, suc, ◌+◌, Bool, true, false, Option, none, some, List, [], ◌∷◌, map, ℤ, at_least_one,
  get_elem?, set, Result, ok, err, if◌then◌else◌,
}

pub data Status : Type 0 where
  waiting in_flight finished : Status

-- a task, and the result or the exception that its call ends with
pub record Task (E A : Type 0) : Type 0 where
  pub meets : Result E A
  pub status : Status

pub record FanOut (E A : Type 0) : Type 0 where
  pub permits : ℕ
  pub tasks : List (Task E A)
  -- what `gather` has returned or raised, as soon as it has
  pub outcome : Option (Result E (List A))

pub data Move : Type 0 where
  acquire : ℕ → Move
  complete : ℕ → Move

abbrev pub cons_value : {A : Type 0} → A → Option (List A) → Option (List A)
cons_value a none = none
cons_value a (some values) = some (a ∷ values)

module _ {E A : Type 0} where
  abbrev pub value_of : Status → Result E A → Option A
  value_of finished (ok a) = some a
  value_of _ _ = none

  -- the values of the tasks, if all have ended well
  unfoldable pub collect : List (Task E A) → Option (List A)
  collect [] = some []
  collect (t ∷ ts) = elim (value_of t.status t.meets) [
    | none ↦ none
    | some a ↦ cons_value a (collect ts)
  ]

  abbrev pub gathered : Option (List A) → Option (Result E (List A))
  gathered none = none
  gathered (some values) = some (ok values)

  -- what `gather` has returned or raised once a task has ended with `r`
  abbrev pub after :
      Option (Result E (List A)) → Result E A → List (Task E A) → Option (Result E (List A))
  after (some o) r tasks = some o
  after none (err e) tasks = some (err e)
  after none (ok a) tasks = gathered (collect tasks)

  -- all tasks are created before the first one runs
  unfoldable pub start : ℤ → List (Result E A) → FanOut E A
  start concurrency meets =
      let tasks = map (λ r. record { meets = r; status = waiting }) meets in
      record {
        permits = at_least_one concurrency;
        tasks = tasks;
        outcome = gathered (collect tasks);
      }

  abbrev pub acquire_at : ℕ → ℕ → Option (Task E A) → FanOut E A → Option (FanOut E A)
  acquire_at i zero t s = none
  acquire_at i (suc p) none s = none
  acquire_at i (suc p) (some t) s = elim t.status [
    | waiting ↦
        some (record s { permits = p; tasks = set s.tasks i (record t { status = in_flight }) })
    | in_flight ↦ none
    | finished ↦ none
  ]

  abbrev pub complete_at : ℕ → Option (Task E A) → FanOut E A → Option (FanOut E A)
  complete_at i none s = none
  complete_at i (some t) s = elim t.status [
    | waiting ↦ none
    | in_flight ↦
        let tasks = set s.tasks i (record t { status = finished }) in
        some (record {
          permits = s.permits + 1;
          tasks = tasks;
          outcome = after s.outcome t.meets tasks;
        })
    | finished ↦ none
  ]

  -- A move that the state does not allow has no successor.
  unfoldable pub step : Move → FanOut E A → Option (FanOut E A)
  step (acquire i) s = acquire_at i s.permits (get_elem? s.tasks i) s
  step (complete i) s = complete_at i (get_elem? s.tasks i) s

  unfoldable pub run : List Move → FanOut E A → Option (FanOut E A)
  run [] s = some s
  run (m ∷ ms) s = elim (step m s) [ none ↦ none | some s' ↦ run ms s' ]
