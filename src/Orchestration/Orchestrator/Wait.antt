-- ===== src/Orchestration/Orchestrator/Wait.antt =====
-- orchestration/orchestrator.py: the wait for the stack.
use cloud_microservices.Prelude.{
  ℕ, zero, suc, ◌+◌, ◌≤◌, ◌<◌, String, ◌≡◌, refl, ◌∙◌, ◌⊎◌, inl, inr, Bool, true, false, ◌==◌, List,
  [], ◌∷◌, ◌++◌, map, arith, all, Bool-cases, ltb, ltb→lt, ltb-false→le, subst,
}
use cloud_microservices.Floats.{Floats}
use cloud_microservices.Http.{Exchange, Httpx}
use cloud_microservices.Orchestration.Targets.{ServiceTarget}
use cloud_microservices.Orchestration.Health.{HealthResult, probe_all}
use cloud_microservices.Orchestration.Health.Laws.{is_healthy, all-probe_all}
use cloud_microservices.Orchestration.Orchestrator.{
  Compose, Effect, docker_compose, compose_line, logged_lines, run_compose, stack_healthy,
  stack_unhealthy_waiting, slept, stack_failed_to_become_healthy, watched, failed_names, is_nil,
  wait_from, wait_until_healthy,
}

is_nil-failed_names : (rs : List HealthResult) → is_nil (failed_names rs) ≡ all (λ r. r.ok) rs
unfolding failed_names
is_nil-failed_names [] = refl
is_nil-failed_names (r ∷ rs) = ground (arith, is_nil-failed_names rs)

-- the whole stack answers poll number `n`
abbrev pub is_up : {J : Type 0} → Httpx → List ServiceTarget → (ℕ → String → Exchange J) → ℕ → Bool
is_up hx targets get n = all (is_healthy hx (get n)) targets

abbrev pub is_down : List String → Bool
is_down [] = false
is_down (a ∷ args) = a == "down"

-- the stack is never taken down
abbrev pub NeverDown : {F : Type 0} → List (Effect F) → Type 0
NeverDown [] = Unit
NeverDown (docker_compose args ∷ es) = (is_down args ≡ false) × NeverDown es
NeverDown (_ ∷ es) = NeverDown es

pub NeverDown-append :
    {F : Type 0} (xs ys : List (Effect F)) → NeverDown xs → NeverDown ys → NeverDown (xs ++ ys)
NeverDown-append [] ys h k = k
NeverDown-append (docker_compose args ∷ xs) ys h k = (h.0, NeverDown-append xs ys h.1 k)
NeverDown-append (compose_line args l ∷ xs) ys h k = NeverDown-append xs ys h k
NeverDown-append (stack_healthy n ∷ xs) ys h k = NeverDown-append xs ys h k
NeverDown-append (stack_unhealthy_waiting n names ∷ xs) ys h k = NeverDown-append xs ys h k
NeverDown-append (slept d ∷ xs) ys h k = NeverDown-append xs ys h k
NeverDown-append (stack_failed_to_become_healthy n ∷ xs) ys h k = NeverDown-append xs ys h k
NeverDown-append (watched actions ∷ xs) ys h k = NeverDown-append xs ys h k

compose_lines-NeverDown :
    (F : Type 0) (args lines : List String) → NeverDown {F = F} (map (compose_line args) lines)
compose_lines-NeverDown F args [] = tt
compose_lines-NeverDown F args (l ∷ lines) = compose_lines-NeverDown F args lines

-- every other command than `down` leaves the stack up
pub run_compose-NeverDown :
    (F : Type 0) (args : List String) (c : Compose)
    → is_down args ≡ false
    → NeverDown {F = F} (run_compose args c).1
unfolding run_compose
run_compose-NeverDown F args c up = elim (Bool-cases c.launched) [
  | inl there ↦ rw there (up, compose_lines-NeverDown F args (logged_lines c.output))
  | inr absent ↦ rw absent tt
]

-- the outcome of a wait over the polls `first`, …, `first + left - 1`
abbrev pub Waited : (ℕ → Bool) → ℕ → ℕ → Bool → Type 0
Waited up first left found =
    ((found ≡ true)
      × ((n : ℕ) × (first ≤ n)
          × (n < first + left)
          × (up n ≡ true)
          × ((m : ℕ) → first ≤ m → m < n → up m ≡ false)))
    ⊎ ((found ≡ false) × ((m : ℕ) → first ≤ m → m < first + left → up m ≡ false))

below_cons :
    (up : ℕ → Bool) (first n : ℕ)
    → up first ≡ false
    → ((m : ℕ) → first + 1 ≤ m → m < n → up m ≡ false)
    → (m : ℕ) → first ≤ m
    → m < n
    → up m ≡ false
below_cons up first n here later m a b = elim (Bool-cases (ltb first m)) [
  | inl above ↦ later m (omega (arith, ltb→lt first m above)) b
  | inr same ↦
      let e : first ≡ m = omega (arith, ltb-false→le first m same) in
      subst (λ k. up k ≡ false) e here
]

module _ (fl : Floats) {J : Type 0} (hx : Httpx) where
  open fl use {Float}

  module _ (targets : List ServiceTarget) (get : ℕ → String → Exchange J) (delay : Float) where
    nil_lem :
        (n : ℕ) → is_nil (failed_names (probe_all hx targets (get n))) ≡ is_up hx targets get n
    nil_lem n =
        is_nil-failed_names (probe_all hx targets (get n)) ∙ all-probe_all hx (get n) targets

    wait_from_lem :
        (left first : ℕ)
        → Waited (is_up hx targets get) first left (wait_from fl hx targets get delay left first).0
    unfolding wait_from
    wait_from_lem zero first = inr (refl, λ m a b. ground arith)
    wait_from_lem (suc left) first = elim (Bool-cases (is_up hx targets get first)) [
      | inl up ↦ inl (
        rw (nil_lem first, up) refl,
        (first, omega arith, omega arith, up, λ m a b. ground arith),
      )
      | inr down ↦
          let up = is_up hx targets get in
          rw (nil_lem first, down)
            (elim (wait_from_lem left (first + 1)) [
              | inl (found, (n, low, high, is, lower)) ↦
                  inl (found, (n, omega arith, omega arith, is, below_cons up first n down lower))
              | inr (found, lower) ↦ inr (
                found,
                λ m a b.
                    below_cons up first (first + suc left) down (λ k c d. lower k c (omega arith)) m
                      a b,
              )
            ])
    ]

    wait_from-NeverDown :
        (left first : ℕ) → NeverDown (wait_from fl hx targets get delay left first).1
    unfolding wait_from
    wait_from-NeverDown zero first = tt
    wait_from-NeverDown (suc left) first =
        elim (Bool-cases (is_nil (failed_names (probe_all hx targets (get first))))) [
          | inl up ↦ rw up tt
          | inr down ↦ rw down (wait_from-NeverDown left (first + 1))
        ]

    -- The wait returns true exactly when the whole stack answers one of the polls 1, …, `attempts`, at
    -- the first such poll; it returns false when none of them finds it up.
    pub wait_until_healthy_lem :
        (attempts : ℕ)
        → Waited
            (is_up hx targets get)
            1
            attempts
            (wait_until_healthy fl hx targets get attempts delay).0
    unfolding wait_until_healthy
    wait_until_healthy_lem attempts =
        subst (Waited (is_up hx targets get) 1 attempts) (ground arith) (wait_from_lem attempts 1)

    pub wait_until_healthy-NeverDown :
        (attempts : ℕ) → NeverDown (wait_until_healthy fl hx targets get attempts delay).1
    unfolding wait_until_healthy
    wait_until_healthy-NeverDown attempts =
        elim (Bool-cases (wait_from fl hx targets get delay attempts 1).0) [
          | inl found ↦ rw found (wait_from-NeverDown attempts 1)
          | inr lost ↦ rw lost (
              NeverDown-append (wait_from fl hx targets get delay attempts 1).1
                (stack_failed_to_become_healthy attempts ∷ []) (wait_from-NeverDown attempts 1) tt)
        ]
