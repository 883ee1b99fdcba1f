-- ===== src/Tests/Pipelines.antt =====
-- shared retries and the pipelines of service-a at concrete inputs.
use cloud_microservices.Prelude.{
  arith, ℕ, ◌+◌, ◌*◌, ◌<◌, ◌≤◌, String, ◌≡◌, ◌≢◌, refl, ◌⊎◌, Bool, true, false, none, some, List,
  [], ◌∷◌, map, ok, err, All, length, pos, Result, leb, suc, if◌then◌else◌,
}
use cloud_microservices.Shared.Retry.{Step, called, slept, retry_async, retry_from, delay}
use cloud_microservices.Shared.Retry.Laws.{
  settle, count_up, calls_of, waits_of, waits_until, may_retry, retry_async-settle,
  retry_async_paces,
}
use cloud_microservices.ServiceA.FanOut
use cloud_microservices.ServiceA.FanOut.{waiting, in_flight, finished, acquire, complete}
use cloud_microservices.ServiceA.FanOut.Bounds.{weight, flying, fan_out_bound}
use cloud_microservices.ServiceA.FanOut.Outcome.{Raises, fan_out_outcome}
use cloud_microservices.ServiceA.FanOut.Ends.{fan_out_ends}
use cloud_microservices.Tests.Data.{naturals}

-- two calls of service-b that end well, run by a semaphore of one permit
abbrev calls : List (Result String ℕ)
calls = ok 4 ∷ ok 9 ∷ []

abbrev schedule : List FanOut.Move
schedule = acquire 1 ∷ complete 1 ∷ acquire 0 ∷ complete 0 ∷ []

abbrev fanned_out : FanOut.FanOut String ℕ
fanned_out = record {
  permits = 1;
  tasks =
      record { meets = ok 4; status = finished } ∷ record { meets = ok 9; status = finished } ∷ [];
  outcome = some (ok (4 ∷ 9 ∷ []));
}

fan_out_bound_example :
    (fanned_out.permits + weight flying fanned_out.tasks ≡ 1) × (weight flying fanned_out.tasks ≤ 1)
unfolding FanOut.run FanOut.step FanOut.start FanOut.collect
fan_out_bound_example = fan_out_bound (pos 1) calls schedule fanned_out refl

fan_out_outcome_example :
    ((vs : List ℕ) → fanned_out.outcome ≡ some (ok vs) → calls ≡ map ok vs)
    × ((e : String) → fanned_out.outcome ≡ some (err e) → Raises e calls)
unfolding FanOut.run FanOut.step FanOut.start FanOut.collect
fan_out_outcome_example = fan_out_outcome (pos 1) calls schedule fanned_out refl

fan_out_ends_example :
    (length schedule ≤ 2 * length calls)
    × (length schedule < 2 * length calls
        → (m : FanOut.Move) × (s' : FanOut.FanOut String ℕ) × (FanOut.step m fanned_out ≡ some s'))
    × (length schedule ≡ 2 * length calls → fanned_out.outcome ≢ none)
unfolding FanOut.run FanOut.step FanOut.start FanOut.collect
fan_out_ends_example = fan_out_ends (pos 1) calls schedule fanned_out refl

-- two failures that may be retried, and a success; three attempts are allowed
abbrev func : ℕ → Result String ℕ
func n = if leb n 2 then err "refused" else ok 7

abbrev draws : ℕ → ℕ
draws n = 0

abbrev always : String → Bool
always e = true

retry_async-settle_example :
    (retry_async naturals func (pos 3) 2 5 draws always).0
    ≡ settle always (func 1) (func 2 ∷ func 3 ∷ [])
retry_async-settle_example = retry_async-settle naturals func 2 5 draws always 2 (omega arith)

abbrev steps : List (Step ℕ)
steps = called 1 ∷ slept 1 2 ∷ called 2 ∷ slept 2 4 ∷ called 3 ∷ []

retry_async_paces_example :
    (m : ℕ) × (m ≤ 2)
    × (calls_of steps ≡ count_up 1 (suc m))
    × (waits_of steps ≡ waits_until naturals func 2 5 draws always 1 m)
    × All (λ k. may_retry naturals func 2 5 draws always k ≡ true) (count_up 1 m)
    × ((m ≡ 2) ⊎ (may_retry naturals func 2 5 draws always (1 + m) ≡ false))
unfolding retry_async retry_from delay
retry_async_paces_example = retry_async_paces naturals func 2 5 draws always 2 (omega arith)
