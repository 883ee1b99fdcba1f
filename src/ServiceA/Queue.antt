-- ===== src/ServiceA/Queue.antt =====
-- services/service-a/app/worker.py: `queue_pipeline`. The items are queued before a consumer runs; from
-- then on the event loop is a list of moves: an idle consumer takes the head of the queue, or one that
-- is at work ends its `work_fn` and calls `task_done`. `queue.join` waits for `unfinished` to be 0.
mod Moves
pub mod Answer
pub mod Places
pub mod Outcome
pub mod Ends
use cloud_microservices.Prelude.{
  ℕ, zero, suc, ◌+◌, ◌-◌, Bool, true, false, Option, none, some, List, [], ◌∷◌, ◌++◌, map, ℤ,
  at_least_one, get_elem?, set, replicate, length, eqb, Result, ok, err, if◌then◌else◌,
}

-- an item of the queue: its index, and the result or the exception of `work_fn` on its value
abbrev pub Item : Type 0 → Type 0 → Type 0
Item E A = ℕ × Result E A

pub record Pipeline (E A : Type 0) : Type 0 where
  pub queue : List (Item E A)
  pub workers : List (Option (Item E A))
  pub results : List (Option A)
  pub failures : List E
  pub unfinished : ℕ

pub data Move : Type 0 where
  take_item : ℕ → Move
  end_item : ℕ → Move

-- `r if r is not None else 0.0`
abbrev pub or_zero : {A : Type 0} → A → Option A → A
or_zero z none = z
or_zero z (some a) = a

module _ {E A : Type 0} where
  abbrev pub enumerate : ℕ → List (Result E A) → List (Item E A)
  enumerate i [] = []
  enumerate i (r ∷ rs) = (i, r) ∷ enumerate (i + 1) rs

  unfoldable pub start : ℤ → List (Result E A) → Pipeline E A
  start workers meets = record {
    queue = enumerate 0 meets;
    workers = replicate (at_least_one workers) none;
    results = replicate (length meets) none;
    failures = [];
    unfinished = length meets;
  }

  -- what `results` and `failures` are once an item has ended
  abbrev pub results_after : Item E A → List (Option A) → List (Option A)
  results_after (i, ok a) results = set results i (some a)
  results_after (i, err e) results = results

  abbrev pub failures_after : Item E A → List E → List E
  failures_after (i, ok a) failures = failures
  failures_after (i, err e) failures = failures ++ e ∷ []

  abbrev pub take_at :
      ℕ → Option (Option (Item E A)) → List (Item E A) → Pipeline E A → Option (Pipeline E A)
  take_at w (some none) (item ∷ rest) s =
      some (record s { queue = rest; workers = set s.workers w (some item) })
  take_at w _ _ s = none

  abbrev pub end_at : ℕ → Option (Option (Item E A)) → Pipeline E A → Option (Pipeline E A)
  end_at w (some (some item)) s = some (record s {
    workers = set s.workers w none;
    results = results_after item s.results;
    failures = failures_after item s.failures;
    unfinished = s.unfinished - 1;
  })
  end_at w _ s = none

  unfoldable pub step : Move → Pipeline E A → Option (Pipeline E A)
  step (take_item w) s = take_at w (get_elem? s.workers w) s.queue s
  step (end_item w) s = end_at w (get_elem? s.workers w) s

  unfoldable pub run : List Move → Pipeline E A → Option (Pipeline E A)
  run [] s = some s
  run (m ∷ ms) s = elim (step m s) [ none ↦ none | some s' ↦ run ms s' ]

  abbrev pub raise_first : List E → List A → Result E (List A)
  raise_first [] values = ok values
  raise_first (e ∷ es) values = err e

  -- what the pipeline returns or raises, once `queue.join` is through
  unfoldable pub answer : A → Pipeline E A → Option (Result E (List A))
  answer z s =
      if eqb s.unfinished 0 then some (raise_first s.failures (map (or_zero z) s.results)) else none
