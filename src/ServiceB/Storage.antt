-- ===== src/ServiceB/Storage.antt =====
-- services/service-b/app/storage.py. No method awaits between taking the lock and releasing it, so
-- each is one step on the dictionary, and concurrent calls are a sequence of such steps.
pub mod Laws
use cloud_microservices.Prelude.{
  ℕ, String, Bool, true, false, Option, none, some, List, [], ◌∷◌, length, is_empty, if◌then◌else◌,
  Result, ok, err,
}
use cloud_microservices.Prelude.Dict
use cloud_microservices.Prelude.Dict.{Dict, is_some}

pub record KeyValueStore (V : Type 0) : Type 0 where
  pub entries : Dict V

pub data ValueError : Type 0 where
  empty_key : ValueError

module _ {V : Type 0} where
  unfoldable pub new_store : KeyValueStore V
  new_store = record { entries = [] }

  unfoldable pub put : String → V → KeyValueStore V → Result ValueError (KeyValueStore V)
  put key value store =
      if is_empty key
      then err empty_key
      else ok (record store { entries = Dict.put key value store.entries })

  unfoldable pub get : String → KeyValueStore V → Option V
  get key store = Dict.get key store.entries

  -- whether the key was there, and the store without it
  unfoldable pub delete : String → KeyValueStore V → Bool × KeyValueStore V
  delete key store =
      (is_some (Dict.get key store.entries), record store { entries = Dict.pop key store.entries })

  unfoldable pub all : KeyValueStore V → Dict V
  all store = store.entries

  unfoldable pub size : KeyValueStore V → ℕ
  size store = length store.entries

-- The calls that requests make, and what they answer.
pub data Call (V : Type 0) : Type 0 where
  put_call : String → V → Call V
  get_call : String → Call V
  delete_call : String → Call V
  all_call : Call V
  size_call : Call V

pub data Reply (V : Type 0) : Type 0 where
  done : Reply V
  failed : ValueError → Reply V
  value : Option V → Reply V
  deleted : Bool → Reply V
  snapshot : Dict V → Reply V
  count : ℕ → Reply V

module _ {V : Type 0} where
  -- a failed call leaves the store as it is
  unfoldable pub perform : Call V → KeyValueStore V → Reply V × KeyValueStore V
  unfolding put get delete all size
  perform (put_call key v) store = elim (put key v store) [
    | ok store' ↦ (done, store')
    | err e ↦ (failed e, store)
  ]
  perform (get_call key) store = (value (get key store), store)
  perform (delete_call key) store =
      let (found, store') = delete key store in (deleted found, store')
  perform all_call store = (snapshot (all store), store)
  perform size_call store = (count (size store), store)

  unfoldable pub perform_all : List (Call V) → KeyValueStore V → List (Reply V) × KeyValueStore V
  perform_all [] store = ([], store)
  perform_all (call ∷ calls) store =
      let (reply, store') = perform call store in
      let (replies, store'') = perform_all calls store' in (reply ∷ replies, store'')
