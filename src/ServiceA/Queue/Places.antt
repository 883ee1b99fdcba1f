-- ===== src/ServiceA/Queue/Places.antt =====
-- services/service-a/app/worker.py: where the items of the queue pipeline are.
use cloud_microservices.Prelude.{
  total, total-set, ℕ, zero, suc, ◌+◌, ◌≡◌, refl, ◌⊎◌, inl, inr, Option, none, some, List, [], ◌∷◌,
  arith, get_elem?, set, replicate, Result,
}
use cloud_microservices.ServiceA.Queue.{Item}

module _ {E A : Type 0} where
  abbrev pub busy : Option (Item E A) → ℕ
  busy none = 0
  busy (some item) = 1

  abbrev pub busy_count : List (Option (Item E A)) → ℕ
  busy_count = total busy

  pub busy_count-set :
      (ws : List (Option (Item E A))) (i : ℕ) (w w' : Option (Item E A))
      → get_elem? ws i ≡ some w
      → busy_count (set ws i w') + busy w ≡ busy_count ws + busy w'
  busy_count-set ws i w w' h = total-set busy ws i w w' h

  abbrev pub InQueue : ℕ → List (Item E A) → Type 0
  InQueue i [] = ⊥
  InQueue i ((j, r) ∷ q) = (i ≡ j) ⊎ InQueue i q

  abbrev pub InWork : ℕ → List (Option (Item E A)) → Type 0
  InWork i [] = ⊥
  InWork i (none ∷ ws) = InWork i ws
  InWork i (some (j, r) ∷ ws) = (i ≡ j) ⊎ InWork i ws

  pub InWork-set_new :
      (ws : List (Option (Item E A))) (w : ℕ) (item : Item E A)
      → get_elem? ws w ≡ some none
      → InWork item.0 (set ws w (some item))
  InWork-set_new [] w item h = absurd (ground arith)
  InWork-set_new (x ∷ xs) zero item h = inl refl
  InWork-set_new (none ∷ xs) (suc w) item h = InWork-set_new xs w item h
  InWork-set_new (some x ∷ xs) (suc w) item h = inr (InWork-set_new xs w item h)

  pub InWork-set_old :
      (i : ℕ) (ws : List (Option (Item E A))) (w : ℕ) (item : Item E A)
      → get_elem? ws w ≡ some none
      → InWork i ws
      → InWork i (set ws w (some item))
  InWork-set_old i [] w item h p = p
  InWork-set_old i (none ∷ xs) zero item h p = inr p
  InWork-set_old i (some x ∷ xs) zero item h p = absurd (ground arith)
  InWork-set_old i (none ∷ xs) (suc w) item h p = InWork-set_old i xs w item h p
  InWork-set_old i (some x ∷ xs) (suc w) item h (inl p) = inl p
  InWork-set_old i (some x ∷ xs) (suc w) item h (inr p) = inr (InWork-set_old i xs w item h p)

  pub InWork-set_free :
      (i : ℕ) (ws : List (Option (Item E A))) (w : ℕ) (item : Item E A)
      → get_elem? ws w ≡ some (some item)
      → InWork i ws
      → (i ≡ item.0) ⊎ InWork i (set ws w none)
  InWork-set_free i [] w item h p = absurd p
  InWork-set_free i (none ∷ xs) zero item h p = absurd (ground arith)
  InWork-set_free i (some x ∷ xs) zero item h (inl p) = inl (ground arith)
  InWork-set_free i (some x ∷ xs) zero item h (inr p) = inr p
  InWork-set_free i (none ∷ xs) (suc w) item h p = InWork-set_free i xs w item h p
  InWork-set_free i (some x ∷ xs) (suc w) item h (inl p) = inr (inl p)
  InWork-set_free i (some x ∷ xs) (suc w) item h (inr p) = later (InWork-set_free i xs w item h p)
    where
      later :
          (i ≡ item.0) ⊎ InWork i (set xs w none)
          → (i ≡ item.0) ⊎ ((i ≡ x.0) ⊎ InWork i (set xs w none))
      later (inl q) = inl q
      later (inr q) = inr (inr q)

  -- an item carries the outcome of its own index
  abbrev pub Fits : List (Result E A) → Item E A → Type 0
  Fits meets item = get_elem? meets item.0 ≡ some item.1

  abbrev pub FitsWork : List (Result E A) → Option (Item E A) → Type 0
  FitsWork meets none = Unit
  FitsWork meets (some item) = Fits meets item

module _ (E A : Type 0) where
  pub busy_count-replicate : (n : ℕ) → busy_count (replicate {A = Option (Item E A)} n none) ≡ 0
  busy_count-replicate zero = refl
  busy_count-replicate (suc n) = omega (arith, busy_count-replicate n)
