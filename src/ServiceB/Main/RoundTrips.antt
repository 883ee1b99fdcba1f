-- ===== src/ServiceB/Main/RoundTrips.antt =====
-- services/service-b/app/main.py: what a client reads back of what it has stored.
use cloud_microservices.Prelude.{
  String, ◌≡◌, refl, true, false, some, List, [], ◌∷◌, arith, ◌==◌, eq_refl, length, is_empty, ok,
  err, All,
}
use cloud_microservices.Prelude.Dict
use cloud_microservices.Prelude.Dict.{Dict, get-put, get-pop, is_some, length-put}
use cloud_microservices.Shared.Models.{StoreRecord, http_exception}
use cloud_microservices.ServiceB.Storage
use cloud_microservices.ServiceB.Storage.{
  KeyValueStore, Call, put_call, get_call, delete_call, all_call, size_call, perform, perform_all,
}
use cloud_microservices.ServiceB.Main.{put_record, get_record, delete_record}

module _ {F : Type 0} where
  -- a call that writes no entry of the key
  abbrev pub Spares : String → Call F → Type 0
  Spares k (put_call j v) = (j == k) ≡ false
  Spares k (delete_call j) = (j == k) ≡ false
  Spares k _ = Unit

  get-perform :
      (k : String) (c : Call F) (s : KeyValueStore F)
      → Spares k c
      → Dict.get k (perform c s).1.entries ≡ Dict.get k s.entries
  unfolding perform
  get-perform k (put_call j v) s h = ground (arith, get-put j k v s.entries)
  get-perform k (delete_call j) s h = ground (arith, get-pop j k s.entries)
  get-perform k (get_call j) s h = refl
  get-perform k all_call s h = refl
  get-perform k size_call s h = refl

  get-perform_all :
      (k : String) (cs : List (Call F)) (s : KeyValueStore F)
      → All (Spares k) cs
      → Dict.get k (perform_all cs s).1.entries ≡ Dict.get k s.entries
  unfolding perform_all
  get-perform_all k [] s h = refl
  get-perform_all k (c ∷ cs) s h =
      rw (get-perform_all k cs (perform c s).1 h.1) (get-perform k c s h.0)

  -- the store that `put` and the other requests leave
  abbrev left : StoreRecord F → List (Call F) → KeyValueStore F → KeyValueStore F
  left r meanwhile s =
      (perform_all meanwhile (record s { entries = Dict.put r.key r.value s.entries })).1

  put_record_stores :
      (r : StoreRecord F) (meanwhile : List (Call F)) (s : KeyValueStore F)
      → is_empty r.key ≡ false
      → put_record r meanwhile s ≡ (
        ok (record { key = r.key; value = r.value; size = length (left r meanwhile s).entries }),
        left r meanwhile s,
      )
  unfolding put_record
  put_record_stores r meanwhile s n = rw (put_record, Storage.put, n) refl

  get-left :
      (r : StoreRecord F) (meanwhile : List (Call F)) (s : KeyValueStore F)
      → All (Spares r.key) meanwhile
      → Dict.get r.key (left r meanwhile s).entries ≡ some r.value
  get-left r meanwhile s h =
      rw
        (
          get-perform_all r.key meanwhile (record s { entries = Dict.put r.key r.value s.entries })
              h,
          get-put r.key r.key r.value s.entries,
          eq_refl r.key,
        )
        refl

  -- A record under a key that is not empty is stored, whatever other requests do meanwhile; as long as
  -- none of them writes under its key, the key then reads as the stored value, and once it is deleted,
  -- which answers that it was there, it reads as 404.
  pub put_get_delete :
      (r : StoreRecord F) (meanwhile : List (Call F)) (s : KeyValueStore F)
      → is_empty r.key ≡ false
      → All (Spares r.key) meanwhile
      → let s' = (put_record r meanwhile s).1 in
        ((put_record r meanwhile s).0
          ≡ ok (record { key = r.key; value = r.value; size = length s'.entries }))
        × (get_record r.key s' ≡ ok (record { key = r.key; value = r.value }))
        × ((delete_record r.key s').0.deleted ≡ true)
        × (get_record r.key (delete_record r.key s').1 ≡ err (http_exception 404 "not found"))
  unfolding put_record get_record delete_record
  put_get_delete r meanwhile s n h =
      let g = get-left r meanwhile s h in
      rw (put_record_stores r meanwhile s n) (
        refl,
        rw (get_record, Storage.get, g) refl,
        rw g refl,
        rw
            (
              get_record,
              Storage.get,
              get-pop r.key r.key (left r meanwhile s).entries,
              eq_refl r.key,
            )
            refl,
      )
