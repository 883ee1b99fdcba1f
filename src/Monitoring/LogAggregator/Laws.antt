-- ===== src/Monitoring/LogAggregator/Laws.antt =====
-- monitoring/log_aggregator.py: what a line's record keeps, and which lines have one.
use cloud_microservices.Prelude.{
  String, ◌≡◌, refl, ◌⊎◌, inl, inr, Bool, true, false, not, ◌==◌, eq_iff, Option, none, some, List,
  [], ◌∷◌, map, filter, arith, if◌then◌else◌, is_empty, rstrip, Option-cases, ap, sym, ◌∙◌,
}
use cloud_microservices.Prelude.Dict
use cloud_microservices.Prelude.Dict.{Dict, is_some}
use cloud_microservices.Monitoring.LogAggregator.{
  Json, object, other, LogRecord, raw_log, service_log, parse_compose_line, is_named, extra_of,
  emit, handle_line, aggregate,
}

module _ {J : Type 0} where
  -- what a record shows under a key of the JSON object that it was made of
  abbrev pub field_of : String → LogRecord J → Option J
  field_of k (raw_log container raw) = none
  field_of k (service_log container service level message timestamp extra) =
      if "service" == k
      then service
      else if "level" == k
      then level
      else if "message" == k
      then message
      else if "timestamp" == k
      then timestamp
      else Dict.get k extra

  get-extra_of :
      (k : String) (d : Dict J) → is_named k ≡ false → Dict.get k (extra_of d) ≡ Dict.get k d
  unfolding extra_of Dict.get
  get-extra_of k [] h = refl
  get-extra_of k ((j, v) ∷ d) h = ground (arith, eq_iff j k, get-extra_of k d)

  unfoldable pub recorded : String → Dict J → LogRecord J
  recorded container d =
      service_log container (Dict.get "service" d) (Dict.get "level" d) (Dict.get "message" d)
        (Dict.get "timestamp" d) (extra_of d)

  pub field_of-recorded :
      (container k : String) (d : Dict J) → field_of k (recorded container d) ≡ Dict.get k d
  unfolding recorded
  field_of-recorded container k d = ground (
    arith,
    eq_iff "service" k,
    eq_iff "level" k,
    eq_iff "message" k,
    eq_iff "timestamp" k,
    get-extra_of k d,
  )

  module _ (loads : String → Option (Json J)) where
    -- A payload that is not empty is never dropped: it is kept as it is where it is no JSON object, and
    -- else its record shows, under every key, what the object holds there.
    pub emit_keeps :
        (container payload : String)
        → is_empty payload ≡ false
        → (emit loads container payload ≡ some (raw_log container payload))
          ⊎ ((d : Dict J) × (r : LogRecord J) × (loads payload ≡ some (object d))
              × (emit loads container payload ≡ some r)
              × ((k : String) → field_of k r ≡ Dict.get k d))
    unfolding emit recorded
    emit_keeps container payload n = elim (Option-cases (loads payload)) [
      | inl e ↦ inl (rw (n, e) refl)
      | inr (other, e) ↦ inl (rw (n, e) refl)
      | inr (object d, e) ↦
          inr (d, recorded container d, e, rw (n, e) refl, λ k. field_of-recorded container k d)
    ]

    -- before a line that is read with the stop set
    abbrev pub until_stop : List (String × Bool) → List String
    until_stop [] = []
    until_stop ((raw, stop_set) ∷ lines) =
        let rest = until_stop lines in if stop_set then [] else raw ∷ rest

    abbrev pub has_payload : String → Bool
    has_payload raw = not (is_empty (parse_compose_line (rstrip raw)).1)

    is_some-emit :
        (container payload : String)
        → is_some (emit loads container payload) ≡ not (is_empty payload)
    unfolding emit
    is_some-emit container payload = ground arith

    is_some-handle_line : (raw : String) → is_some (handle_line loads raw) ≡ has_payload raw
    unfolding handle_line
    is_some-handle_line raw =
        is_some-emit (parse_compose_line (rstrip raw)).0 (parse_compose_line (rstrip raw)).1

    -- The lines that are read before the stop give the records, one for each whose payload is not empty,
    -- in their order; the first line that is read with the stop set gives none, and nothing after it does.
    pub aggregate_lem :
        (lines : List (String × Bool))
        → map some (aggregate loads lines)
          ≡ map (handle_line loads) (filter has_payload (until_stop lines))
    unfolding aggregate
    aggregate_lem [] = refl
    aggregate_lem ((raw, true) ∷ lines) = refl
    aggregate_lem ((raw, false) ∷ lines) = elim (Option-cases (handle_line loads raw)) [
      | inl e ↦
          let h : has_payload raw ≡ false = sym (is_some-handle_line raw) ∙ ap is_some e in
          rw (e, h) (aggregate_lem lines)
      | inr (r, e) ↦
          let h : has_payload raw ≡ true = sym (is_some-handle_line raw) ∙ ap is_some e in
          rw (h, e) (ap (λ rest. some r ∷ rest) (aggregate_lem lines))
    ]
