-- ===== src/Shared/Retry/Laws.antt =====
-- shared/utils.py: what `retry_async` returns or raises, and how often it calls and waits.
use cloud_microservices.Prelude.{
  ◌-◌, ◌^◌, ℕ, zero, suc, ◌+◌, ◌≤◌, ◌≡◌, refl, ap, Bool, true, false, Option, none, some, List, [],
  ◌∷◌, map, arith, pos, if◌then◌else◌, Result, ok, err, All, ◌⊎◌, inl, inr, Bool-cases,
  Result-cases,
}
use cloud_microservices.Floats.{Floats}
use cloud_microservices.Shared.Retry.{
  RetryError, raised, Step, called, slept, exhausted, delay, retry_from, retry_async,
}

-- from `a` on, `n` numbers
abbrev pub count_up : ℕ → ℕ → List ℕ
count_up a zero = []
count_up a (suc n) = a ∷ count_up (a + 1) n

module _ {E A : Type 0} (retryable : E → Bool) where
  -- The meaning of a row of outcomes: the first success, or the first failure that may not be
  -- retried or has no successor.
  unfoldable pub settle : Result E A → List (Result E A) → Result (RetryError E) A
  settle (ok a) later = ok a
  settle (err exc) [] = err (raised exc)
  settle (err exc) (next ∷ later) =
      let rest = settle next later in if retryable exc then rest else err (raised exc)

module _ {F : Type 0} where
  unfoldable pub calls_of : List (Step F) → List ℕ
  calls_of [] = []
  calls_of (called n ∷ steps) = n ∷ calls_of steps
  calls_of (slept n d ∷ steps) = calls_of steps
  calls_of (exhausted n ∷ steps) = calls_of steps

  unfoldable pub waits_of : List (Step F) → List (ℕ × F)
  waits_of [] = []
  waits_of (called n ∷ steps) = waits_of steps
  waits_of (slept n d ∷ steps) = (n, d) ∷ waits_of steps
  waits_of (exhausted n ∷ steps) = waits_of steps

module _ (fl : Floats) {E A : Type 0} (call : ℕ → Result E A) (base_delay max_delay : fl.Float)
    (jitter : ℕ → fl.Float) (retryable : E → Bool) where
  open fl use {Float}

  -- the capped exponential wait with its jitter
  abbrev pub backoff : ℕ → Float
  backoff k =
      let grown = fl.mul base_delay (fl.of_ℕ (2 ^ (k - 1))) in
      fl.add (if fl.ltb grown max_delay then grown else max_delay) (jitter k)

  delay_is : (k : ℕ) → k ≤ 1024 → delay fl base_delay max_delay jitter k ≡ some (backoff k)
  unfolding delay
  delay_is k few = ground arith

  settles_from :
      (attempts left attempt : ℕ) (last : Option E)
      → attempt + left ≡ attempts
      → attempts ≤ 1025
      → (retry_from fl call attempts base_delay max_delay jitter retryable
          (suc left)
          attempt
          last).0
        ≡ settle retryable (call attempt) (map call (count_up (attempt + 1) left))
  unfolding retry_from settle
  settles_from attempts zero attempt last h few = ground arith
  settles_from attempts (suc left) attempt last h few =
      let d = delay_is attempt (omega (arith, h, few)) in
      ground (arith, d, settles_from attempts left (attempt + 1))

  abbrev pub waits_until : ℕ → ℕ → List (ℕ × Float)
  waits_until attempt n = map (λ k. (k, backoff k)) (count_up attempt n)

  -- whether a call ends in a failure that may be tried again
  abbrev pub may_retry : ℕ → Bool
  may_retry k = elim (call k) [ ok _ ↦ false | err exc ↦ retryable exc ]

  paces_from :
      (attempts left attempt : ℕ) (last : Option E)
      → attempt + left ≡ attempts
      → attempts ≤ 1025
      → let steps =
          (retry_from fl call attempts base_delay max_delay jitter retryable
            (suc left)
            attempt
            last).1 in
        (n : ℕ) × (n ≤ left)
        × (calls_of steps ≡ count_up attempt (suc n))
        × (waits_of steps ≡ waits_until attempt n)
        × All (λ k. may_retry k ≡ true) (count_up attempt n)
        × ((n ≡ left) ⊎ (may_retry (attempt + n) ≡ false))
  unfolding retry_from calls_of waits_of
  paces_from attempts zero attempt last h bound =
      (0, omega arith, ground arith, ground arith, tt, inl refl)
  paces_from attempts (suc left) attempt last h bound =
      let d = delay_is attempt (omega (arith, h, bound)) in
      let here : attempt + 0 ≡ attempt = omega arith in
      elim (Result-cases (call attempt)) [
        | inl (a, e) ↦
            (0, omega arith, ground arith, ground arith, tt, inr (rw here (ground arith)))
        | inr (exc, e) ↦ elim (Bool-cases (retryable exc)) [
          | inl again ↦
              let (n, few, calls, waits, failed, end) =
                paces_from attempts left (attempt + 1) (some exc) (omega arith) bound in
              let moved : attempt + suc n ≡ attempt + 1 + n = omega arith in
              (
                suc n,
                omega arith,
                ground arith,
                ground arith,
                (ground arith, failed),
                ends n moved end,
              )
          | inr never ↦
              (0, omega arith, ground arith, ground arith, tt, inr (rw here (ground arith)))
        ]
      ]
    where
      ends :
          (n : ℕ)
          → attempt + suc n ≡ attempt + 1 + n
          → (n ≡ left) ⊎ (may_retry (attempt + 1 + n) ≡ false)
          → (suc n ≡ suc left) ⊎ (may_retry (attempt + suc n) ≡ false)
      ends n moved (inl p) = inl (ap suc p)
      ends n moved (inr q) = inr (rw moved q)

  -- With 1 to 1025 attempts allowed, the outcome is that of the first success or of the first failure
  -- that ends the loop; the assertion behind the loop is never reached, and no wait is too large for a float.
  pub retry_async-settle :
      (n : ℕ)
      → n ≤ 1024
      → (retry_async fl call (pos (suc n)) base_delay max_delay jitter retryable).0
        ≡ settle retryable (call 1) (map call (count_up 2 n))
  unfolding retry_async
  retry_async-settle n few = settles_from (suc n) n 1 none (omega arith) (omega (arith, few))

  -- With 1 to 1025 attempts allowed, `func` is called at least once and at most `attempts` times. Every call but the last failed
  -- with an exception that may be retried, and the last one did not or was the last allowed. Between
  -- two calls there is one wait, the capped exponential delay of the call before it.
  pub retry_async_paces :
      (n : ℕ)
      → n ≤ 1024
      → let steps = (retry_async fl call (pos (suc n)) base_delay max_delay jitter retryable).1 in
        (m : ℕ) × (m ≤ n)
        × (calls_of steps ≡ count_up 1 (suc m))
        × (waits_of steps ≡ waits_until 1 m)
        × All (λ k. may_retry k ≡ true) (count_up 1 m)
        × ((m ≡ n) ⊎ (may_retry (1 + m) ≡ false))
  unfolding retry_async
  retry_async_paces n bound = paces_from (suc n) n 1 none (omega arith) (omega (arith, bound))

-- a row of calls that settles in a value has that value at one of its calls
pub settle-ok :
    {E A : Type 0} (retryable : E → Bool) (call : ℕ → Result E A) (n k : ℕ) (a : A)
    → settle retryable (call k) (map call (count_up (k + 1) n)) ≡ ok a
    → (m : ℕ) × (k ≤ m) × (m ≤ k + n) × (call m ≡ ok a)
unfolding settle
settle-ok retryable call zero k a h = elim (Result-cases (call k)) [
  | inl (b, e) ↦ (k, omega arith, omega arith, ground arith)
  | inr (x, e) ↦ absurd (ground arith)
]
settle-ok retryable call (suc n) k a h = elim (Result-cases (call k)) [
  | inl (b, e) ↦ (k, omega arith, omega arith, ground arith)
  | inr (x, e) ↦
      let (m, low, high, found) = settle-ok retryable call n (k + 1) a (ground arith) in
      (m, omega arith, omega arith, found)
]
