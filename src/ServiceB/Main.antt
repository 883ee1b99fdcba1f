-- ===== src/ServiceB/Main.antt =====
-- services/service-b/app/main.py: the handlers over the store. A record's key may be empty: only its
-- value is checked by `StoreRecord`.
pub mod RoundTrips
use cloud_microservices.Prelude.{
  ℕ, String, Bool, true, false, Option, none, some, List, [], ◌∷◌, length, Result, ok, err,
}
use cloud_microservices.Prelude.Dict.{Dict}
use cloud_microservices.Floats.{Floats}
use cloud_microservices.Shared.Models.{StoreRecord, HandlerError, http_exception, unhandled}
use cloud_microservices.ServiceB.Storage
use cloud_microservices.ServiceB.Storage.{KeyValueStore, ValueError, empty_key, Call, perform_all}

pub record Stored (F : Type 0) : Type 0 where
  pub key : String
  pub value : F
  pub size : ℕ

pub record Found (F : Type 0) : Type 0 where
  pub key : String
  pub value : F

pub record Deleted : Type 0 where
  pub key : String
  pub deleted : Bool

pub record Listing (F : Type 0) : Type 0 where
  pub size : ℕ
  pub records : Dict F

pub record Squared (F : Type 0) : Type 0 where
  pub key : String
  pub input : F
  pub result : F

module _ {F : Type 0} where
  -- `put_record`: other requests may call the store, `meanwhile`, between its `put` and its `size`. A
  -- `ValueError` of the store goes up.
  unfoldable pub put_record :
      StoreRecord F
      → List (Call F)
      → KeyValueStore F
      → Result HandlerError (Stored F) × KeyValueStore F
  unfolding Storage.put perform_all Storage.size
  put_record record' meanwhile store = elim (Storage.put record'.key record'.value store) [
    | err empty_key ↦ (err (unhandled "key must be non-empty"), store)
    | ok store' ↦
        let (_, store'') = perform_all meanwhile store' in
        (
          ok (record { key = record'.key; value = record'.value; size = Storage.size store'' }),
          store'',
        )
  ]

  -- `get_record`; the detail of the 404 is given without the key
  unfoldable pub get_record : String → KeyValueStore F → Result HandlerError (Found F)
  unfolding Storage.get
  get_record key' store = elim (Storage.get key' store) [
    | none ↦ err (http_exception 404 "not found")
    | some v ↦ ok (record { key = key'; value = v })
  ]

  unfoldable pub delete_record : String → KeyValueStore F → Deleted × KeyValueStore F
  unfolding Storage.delete
  delete_record key' store =
      let (found, store') = Storage.delete key' store in
      (record { key = key'; deleted = found }, store')

  unfoldable pub list_records : KeyValueStore F → Listing F
  unfolding Storage.all
  list_records store =
      let records' = Storage.all store in record { size = length records'; records = records' }

-- `squared`; `value ** 2` raises `OverflowError` where the power has no value
unfoldable pub squared :
    (fl : Floats) → StoreRecord fl.Float → Result HandlerError (Squared fl.Float)
squared fl payload = elim (fl.pow payload.value 2) [
  | none ↦ err (unhandled "OverflowError")
  | some v ↦ ok (record { key = payload.key; input = payload.value; result = v })
]
