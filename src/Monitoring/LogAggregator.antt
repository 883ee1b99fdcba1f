-- ===== src/Monitoring/LogAggregator.antt =====
-- monitoring/log_aggregator.py: lines of `docker compose logs` become normalised records. `loads` is
-- `json.loads`, with no value where it raises `JSONDecodeError`.
pub mod Laws
pub mod Lines
pub mod Main
pub mod Arguments
use cloud_microservices.Prelude.{
  String, Bool, true, false, ◌||◌, ◌==◌, Option, none, some, List, [], ◌∷◌, partition_at,
  if◌then◌else◌, is_empty, strip, rstrip,
}
use cloud_microservices.Prelude.Dict
use cloud_microservices.Prelude.Dict.{Dict}

-- what `json.loads` gives: a `dict`, or a value that is none
pub data Json (J : Type 0) : Type 0 where
  object : Dict J → Json J
  other : Json J

pub data LogRecord (J : Type 0) : Type 0 where
  raw_log : String → String → LogRecord J
  service_log : String → Option J → Option J → Option J → Option J → Dict J → LogRecord J

-- `_parse_compose_line`
unfoldable pub parse_compose_line : String → String × String
parse_compose_line raw = elim (partition_at b'|' raw) [
  | none ↦ ("", raw)
  | some (head, tail) ↦ (strip head, strip tail)
]

-- the keys that have a field of their own
abbrev pub is_named : String → Bool
is_named k = "service" == k || "level" == k || "message" == k || "timestamp" == k

-- the dict comprehension of `extra`
unfoldable pub extra_of : {J : Type 0} → Dict J → Dict J
extra_of [] = []
extra_of ((k, v) ∷ d) = let rest = extra_of d in if is_named k then rest else (k, v) ∷ rest

module _ {J : Type 0} (loads : String → Option (Json J)) where
  -- `_emit`: the record that is logged, if any
  unfoldable pub emit : String → String → Option (LogRecord J)
  unfolding extra_of
  emit container payload = if is_empty payload then none else elim (loads payload) [
    | none ↦ some (raw_log container payload)
    | some other ↦ some (raw_log container payload)
    | some (object record') ↦ some (
        service_log container (Dict.get "service" record') (Dict.get "level" record')
          (Dict.get "message" record') (Dict.get "timestamp" record') (extra_of record'))
  ]

  -- the body of the loop of `_amain`, on a decoded line
  unfoldable pub handle_line : String → Option (LogRecord J)
  handle_line raw =
      let (container, payload) = parse_compose_line (rstrip raw) in emit container payload

  -- the loop of `_amain`: each line with whether the stop has been set when it is read
  unfoldable pub aggregate : List (String × Bool) → List (LogRecord J)
  aggregate [] = []
  aggregate ((raw, stop_set) ∷ lines) =
      let rest = aggregate lines in
      if stop_set then [] else elim (handle_line raw) [ none ↦ rest | some r ↦ r ∷ rest ]
