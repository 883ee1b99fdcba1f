-- ===== src/Shared/Retry.antt =====
-- shared/utils.py: `retry_async`. What the n-th call of `func` meets is `call n`, counted from 1, and
-- the n-th draw of `random.uniform(0, base_delay_seconds)` is `jitter n`.
pub mod Laws
use cloud_microservices.Prelude.{
  ℕ, zero, suc, ◌+◌, ◌-◌, ◌^◌, Bool, true, false, Option, none, some, List, [], ◌∷◌, ℤ, pos, negsuc,
  eqb, leb, if◌then◌else◌, Result, ok, err,
}
use cloud_microservices.Floats.{Floats}

-- `ValueError` of the guard, the exception of `func`, the failed `assert` behind the loop, or the `OverflowError` of a
-- power of 2 that is no float
pub data RetryError (E : Type 0) : Type 0 where
  value_error : RetryError E
  raised : E → RetryError E
  assertion_error : RetryError E
  overflow_error : RetryError E

-- what a run does: it calls `func`, waits, and logs that it gives up
pub data Step (F : Type 0) : Type 0 where
  called : ℕ → Step F
  slept : ℕ → F → Step F
  exhausted : ℕ → Step F

module _ (fl : Floats) where
  open fl use {Float}

  -- Python's `min(a, b)`
  abbrev min_float : Float → Float → Float
  min_float a b = if fl.ltb b a then b else a

  -- The wait behind a failed attempt: capped exponential growth, and jitter. An `int` from 2 ** 1024 on cannot be
  -- multiplied with a float.
  unfoldable pub delay : Float → Float → (ℕ → Float) → ℕ → Option Float
  delay base_delay max_delay jitter attempt =
      let grown = fl.mul base_delay (fl.of_ℕ (2 ^ (attempt - 1))) in
      if leb 1024 (attempt - 1)
      then none
      else some (fl.add (min_float max_delay grown) (jitter attempt))

  module _ {E A : Type 0} (call : ℕ → Result E A) (attempts : ℕ) (base_delay max_delay : Float)
      (jitter : ℕ → Float) (retryable : E → Bool) where
    -- The loop: `left` attempts are to come, the next one is `attempt`.
    unfoldable pub retry_from :
        (left attempt : ℕ) (last_exc : Option E) → Result (RetryError E) A × List (Step Float)
    retry_from zero attempt none = (err assertion_error, [])
    retry_from zero attempt (some exc) = (err (raised exc), [])
    retry_from (suc left) attempt last_exc = elim (call attempt) [
      | ok a ↦ (ok a, called attempt ∷ [])
      | err exc ↦
          let rest = retry_from left (attempt + 1) (some exc) in
          if retryable exc
          then (if eqb attempt attempts
              then (err (raised exc), called attempt ∷ exhausted attempt ∷ [])
              else elim (delay base_delay max_delay jitter attempt) [
                | none ↦ (err overflow_error, called attempt ∷ [])
                | some seconds ↦ (rest.0, called attempt ∷ slept attempt seconds ∷ rest.1)
              ])
          else (err (raised exc), called attempt ∷ [])
    ]

  unfoldable pub retry_async :
      {E A : Type 0}
      → (ℕ → Result E A)
      → ℤ
      → Float
      → Float
      → (ℕ → Float)
      → (E → Bool)
      → Result (RetryError E) A × List (Step Float)
  retry_async call (negsuc n) base_delay max_delay jitter retryable = (err value_error, [])
  retry_async call (pos zero) base_delay max_delay jitter retryable = (err value_error, [])
  retry_async call (pos (suc n)) base_delay max_delay jitter retryable =
      retry_from call (suc n) base_delay max_delay jitter retryable (suc n) 1 none
