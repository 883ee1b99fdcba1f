-- ===== src/ServiceB/Storage/Laws.antt =====
-- services/service-b/app/storage.py: the store is a finite map.
use cloud_microservices.Prelude.{
  ℕ, ◌+◌, ◌-◌, String, ◌≡◌, refl, Option, none, some, List, [], ◌∷◌, arith, ◌==◌, length, is_empty,
  if◌then◌else◌,
}
use cloud_microservices.Prelude.Dict
use cloud_microservices.Prelude.Dict.{
  Dict, get-put, get-pop, is_some, HasUniqueKeys, put-HasUniqueKeys, pop-HasUniqueKeys, length-put,
  length-pop,
}
use cloud_microservices.ServiceB.Storage.{
  KeyValueStore, empty_key, new_store, Call, put_call, get_call, delete_call, all_call, size_call,
  Reply, done, failed, value, deleted, snapshot, count, perform, perform_all,
}

-- The contract: a map from keys to values, and the number of its keys.
pub record FiniteMap (V : Type 0) : Type 0 where
  pub at : String → Option V
  pub card : ℕ

abbrev pub override {ℓ} : {A : Type ℓ} → (String → A) → String → A → String → A
override f k v j = if k == j then v else f j

module _ {V : Type 0} where
  -- What a call does to the map: only a `put` under a key that is not empty and a `delete` change it.
  unfoldable pub spec_step : Call V → FiniteMap V → FiniteMap V
  spec_step (put_call k v) m = if is_empty k then m else record {
    at = override m.at k (some v);
    card = if is_some (m.at k) then m.card else m.card + 1;
  }
  spec_step (delete_call k) m = record {
    at = override m.at k none;
    card = if is_some (m.at k) then m.card - 1 else m.card;
  }
  spec_step _ m = m

  -- What a call answers on the map; of a snapshot, what it holds under each key.
  abbrev pub Answers : Call V → FiniteMap V → Reply V → Type 0
  Answers (put_call k v) m r = r ≡ (if is_empty k then failed empty_key else done)
  Answers (get_call k) m r = r ≡ value (m.at k)
  Answers (delete_call k) m r = r ≡ deleted (is_some (m.at k))
  Answers all_call m r =
      (d : Dict V) × (r ≡ snapshot d) × HasUniqueKeys d × ((k : String) → Dict.get k d ≡ m.at k)
  Answers size_call m r = r ≡ count m.card

  -- the store stands for the map
  pub record Represents (s : KeyValueStore V) (m : FiniteMap V) : Type 0 where
    pub unique : HasUniqueKeys s.entries
    pub at : (k : String) → Dict.get k s.entries ≡ m.at k
    pub card : length s.entries ≡ m.card

  -- every call answers as on the map, and leaves a store that stands for the new map
  perform_refines :
      (c : Call V) (s : KeyValueStore V) (m : FiniteMap V)
      → Represents s m
      → Answers c m (perform c s).0 × Represents (perform c s).1 (spec_step c m)
  unfolding perform spec_step
  perform_refines (put_call k v) s m h = (
    ground arith,
    record {
      unique = ground (arith, put-HasUniqueKeys k v s.entries);
      at = λ j. ground (arith, get-put k j v s.entries, h.at j);
      card = ground (arith, length-put k v s.entries, h.at k);
    },
  )
  perform_refines (get_call k) s m h = (ground (arith, h.at k), h)
  perform_refines (delete_call k) s m h = (
    ground (arith, h.at k),
    record {
      unique = pop-HasUniqueKeys k s.entries h.unique;
      at = λ j. ground (arith, get-pop k j s.entries, h.at j);
      card = ground (arith, length-pop k s.entries h.unique, h.at k);
    },
  )
  perform_refines all_call s m h = ((s.entries, refl, h.unique, h.at), h)
  perform_refines size_call s m h = (ground arith, h)

  unfoldable pub spec_run : List (Call V) → FiniteMap V → FiniteMap V
  spec_run [] m = m
  spec_run (c ∷ cs) m = spec_run cs (spec_step c m)

  -- the answers of a row of calls, each on the map that the calls before it leave
  unfoldable pub AllAnswer : List (Call V) → FiniteMap V → List (Reply V) → Type 0
  AllAnswer [] m [] = Unit
  AllAnswer [] m (r ∷ rs) = ⊥
  AllAnswer (c ∷ cs) m [] = ⊥
  AllAnswer (c ∷ cs) m (r ∷ rs) = Answers c m r × AllAnswer cs (spec_step c m) rs

  -- Whatever the calls and their order, a store answers every one of them as the finite map does
  -- that it stands for, and stands for that map afterwards.
  pub perform_all_refines :
      (cs : List (Call V)) (s : KeyValueStore V) (m : FiniteMap V)
      → Represents s m
      → AllAnswer cs m (perform_all cs s).0 × Represents (perform_all cs s).1 (spec_run cs m)
  unfolding perform_all AllAnswer spec_run
  perform_all_refines [] s m h = (tt, h)
  perform_all_refines (c ∷ cs) s m h =
      let (answer, h') = perform_refines c s m h in
      let (answers, h'') = perform_all_refines cs (perform c s).1 (spec_step c m) h' in
      ((answer, answers), h'')

  abbrev pub empty_map : FiniteMap V
  empty_map = record { at = λ k. none; card = 0 }

  pub new_store-Represents : Represents new_store empty_map
  unfolding new_store Dict.get
  new_store-Represents = record { unique = tt; at = λ k. refl; card = refl }
