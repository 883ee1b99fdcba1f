-- ===== src/Prelude/Dict.antt =====
-- Python's `dict` with keys of type `str`: pairs in the order of insertion, each key once.
use cloud_microservices.Prelude.{
  String, ◌+◌, ◌≡◌, refl, Bool, true, false, Option, none, some, List, [], ◌∷◌, map, arith, ◌==◌,
  eq_iff, if◌then◌else◌, length, All,
}

abbrev pub Dict {ℓ} : Type ℓ → Type ℓ
Dict V = List (String × V)

module _ {ℓ} {V : Type ℓ} where
  -- `d.get(k)`
  unfoldable pub get : String → Dict V → Option V
  get k [] = none
  get k ((j, v) ∷ d) = if j == k then some v else get k d

  -- `d[k] = v`: a key that is there keeps its place
  unfoldable pub put : String → V → Dict V → Dict V
  put k v [] = (k, v) ∷ []
  put k v ((j, w) ∷ d) = if j == k then (j, v) ∷ d else (j, w) ∷ put k v d

  -- the dictionary after `d.pop(k, None)`
  unfoldable pub pop : String → Dict V → Dict V
  pop k [] = []
  pop k ((j, w) ∷ d) = let rest = pop k d in if j == k then rest else (j, w) ∷ rest

  -- no entry has the key
  abbrev pub Lacks : String → Dict V → Type 0
  Lacks k = All (λ e. (e.0 == k) ≡ false)

  -- no key stands twice
  abbrev pub HasUniqueKeys : Dict V → Type 0
  HasUniqueKeys [] = Unit
  HasUniqueKeys ((k, v) ∷ d) = Lacks k d × HasUniqueKeys d

  abbrev pub keys : Dict V → List String
  keys = map (λ e. e.0)

  pub get-put :
      (k j : String) (v : V) (d : Dict V) → get j (put k v d) ≡ (if k == j then some v else get j d)
  unfolding get put
  get-put k j v [] = refl
  get-put k j v ((i, w) ∷ d) = ground (arith, eq_iff k j, eq_iff i k, eq_iff i j, get-put k j v d)

  pub get-pop : (k j : String) (d : Dict V) → get j (pop k d) ≡ (if k == j then none else get j d)
  unfolding get pop
  get-pop k j [] = ground arith
  get-pop k j ((i, w) ∷ d) = ground (arith, eq_iff k j, eq_iff i k, eq_iff i j, get-pop k j d)

  Lacks-put :
      (k j : String) (v : V) (d : Dict V) → (k == j) ≡ false → Lacks j d → Lacks j (put k v d)
  unfolding put
  Lacks-put k j v [] n h = (n, tt)
  Lacks-put k j v ((i, w) ∷ d) n h = ground (arith, Lacks-put k j v d)

  Lacks-pop : (k j : String) (d : Dict V) → Lacks j d → Lacks j (pop k d)
  unfolding pop
  Lacks-pop k j [] h = tt
  Lacks-pop k j ((i, w) ∷ d) h = ground (arith, Lacks-pop k j d)

  pub get_of_Lacks : (k : String) (d : Dict V) → Lacks k d → get k d ≡ none
  unfolding get
  get_of_Lacks k [] h = refl
  get_of_Lacks k ((i, w) ∷ d) h = ground (arith, get_of_Lacks k d)

  pop_of_Lacks : (k : String) (d : Dict V) → Lacks k d → pop k d ≡ d
  unfolding pop
  pop_of_Lacks k [] h = refl
  pop_of_Lacks k ((i, w) ∷ d) h = ground (arith, pop_of_Lacks k d)

  pub put-HasUniqueKeys :
      (k : String) (v : V) (d : Dict V) → HasUniqueKeys d → HasUniqueKeys (put k v d)
  unfolding put
  put-HasUniqueKeys k v [] h = (tt, tt)
  put-HasUniqueKeys k v ((i, w) ∷ d) h =
      ground (arith, eq_iff i k, eq_iff k i, Lacks-put k i v d, put-HasUniqueKeys k v d)

  pub pop-HasUniqueKeys : (k : String) (d : Dict V) → HasUniqueKeys d → HasUniqueKeys (pop k d)
  unfolding pop
  pop-HasUniqueKeys k [] h = tt
  pop-HasUniqueKeys k ((i, w) ∷ d) h = ground (arith, Lacks-pop k i d, pop-HasUniqueKeys k d)

  abbrev pub is_some : Option V → Bool
  is_some none = false
  is_some (some v) = true

  pub length-put :
      (k : String) (v : V) (d : Dict V)
      → length (put k v d) ≡ (if is_some (get k d) then length d else length d + 1)
  unfolding get put
  length-put k v [] = refl
  length-put k v ((i, w) ∷ d) = ground (arith, length-put k v d)

  pub length-pop :
      (k : String) (d : Dict V)
      → HasUniqueKeys d
      → length d ≡ (if is_some (get k d) then length (pop k d) + 1 else length (pop k d))
  unfolding get pop
  length-pop k [] h = refl
  length-pop k ((i, w) ∷ d) h = ground (arith, length-pop k d, eq_iff i k, pop_of_Lacks i d)
