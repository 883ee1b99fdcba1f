-- ===== src/Tests/Logs.antt =====
-- A line of a service in the aggregator, at concrete inputs: a codec of dictionaries in the place of JSON, and
-- processors that work on dictionaries.
use Prim.Native.Char.{Char, code}
use cloud_microservices.Prelude.{
  String, ◌≡◌, refl, ap, false, ◌==◌, Option, none, some, List, [], ◌∷◌, ◌++◌, arith, eqb, is_empty,
  lstrip, rstrip, if◌then◌else◌,
}
use cloud_microservices.Prelude.Dict
use cloud_microservices.Prelude.Dict.{Dict, get-pop}
use cloud_microservices.Shared.Logging.{
  Logger, info, Structlog, name_of, get_logger, log, processed,
}
use cloud_microservices.Monitoring.LogAggregator.{Json, object, LogRecord, handle_line}
use cloud_microservices.Monitoring.LogAggregator.Laws.{field_of}
use cloud_microservices.System.Logs.{
  IsStripped, compose_line, is_reserved, or_else, IsDocumented, log-shown,
}

-- a text in front of a code: an `x` before each character, and a `y` at the end
abbrev encode_text : String → String → String
encode_text String.[] rest = String.◌∷◌ "y" rest
encode_text (String.◌∷◌ c s) rest = String.◌∷◌ "x" (String.◌∷◌ c (encode_text s rest))

abbrev encode : Dict String → String
encode [] = "z"
encode ((k, v) ∷ d) = encode_text k (encode_text v (encode d))

abbrev cons_char : Char → Option (List String) → Option (List String)
cons_char c (some (s ∷ ss)) = some (String.◌∷◌ c s ∷ ss)
cons_char c (some []) = none
cons_char c none = none

abbrev cons_text : Option (List String) → Option (List String)
cons_text (some ss) = some ("" ∷ ss)
cons_text none = none

unfoldable decode_texts : String → Option (List String)
decode_texts String.[] = none
decode_texts (String.◌∷◌ m String.[]) = if eqb (code m) b'z' then some [] else none
decode_texts (String.◌∷◌ m (String.◌∷◌ c s)) =
    let inside = cons_char c (decode_texts s) in
    let behind = cons_text (decode_texts (String.◌∷◌ c s)) in
    if eqb (code m) b'x' then inside else if eqb (code m) b'y' then behind else none

abbrev pairs : List String → Option (Dict String)
pairs [] = some []
pairs (k ∷ []) = none
pairs (k ∷ v ∷ ss) = elim (pairs ss) [ none ↦ none | some d ↦ some ((k, v) ∷ d) ]

abbrev decode : String → Option (Json String)
decode s = elim (decode_texts s) [
  | none ↦ none
  | some ss ↦ elim (pairs ss) [ none ↦ none | some d ↦ some (object d) ]
]

abbrev flat : Dict String → List String
flat [] = []
flat ((k, v) ∷ d) = k ∷ v ∷ flat d

pairs-flat : (d : Dict String) → pairs (flat d) ≡ some d
pairs-flat [] = refl
pairs-flat ((k, v) ∷ d) = rw (pairs-flat d) refl

decode_texts-encode_text :
    (s rest : String) (ss : List String)
    → is_empty rest ≡ false
    → decode_texts rest ≡ some ss
    → decode_texts (encode_text s rest) ≡ some (s ∷ ss)
unfolding decode_texts
decode_texts-encode_text String.[] String.[] ss n h = cc
decode_texts-encode_text String.[] (String.◌∷◌ c s) ss n h = rw h refl
decode_texts-encode_text (String.◌∷◌ c s) rest ss n h =
    ap (cons_char c) (decode_texts-encode_text s rest ss n h)

encode_text-IsStripped : (s rest : String) → IsStripped rest → IsStripped (encode_text s rest)
unfolding lstrip rstrip
encode_text-IsStripped String.[] rest h = record {
  not_empty = refl;
  left = refl;
  right = rw h.right refl;
}
encode_text-IsStripped (String.◌∷◌ c s) rest h =
    let inner = encode_text-IsStripped s rest h in
    record { not_empty = refl; left = refl; right = ground (arith, inner.right, inner.not_empty) }

encode-IsStripped : (d : Dict String) → IsStripped (encode d)
unfolding lstrip rstrip
encode-IsStripped [] = record { not_empty = refl; left = refl; right = refl }
encode-IsStripped ((k, v) ∷ d) =
    encode_text-IsStripped k (encode_text v (encode d))
      (encode_text-IsStripped v (encode d) (encode-IsStripped d))

decode_texts-encode : (d : Dict String) → decode_texts (encode d) ≡ some (flat d)
unfolding decode_texts
decode_texts-encode [] = refl
decode_texts-encode ((k, v) ∷ d) =
    let tail = encode_text-IsStripped v (encode d) (encode-IsStripped d) in
    decode_texts-encode_text k (encode_text v (encode d)) (v ∷ flat d) tail.not_empty (
      decode_texts-encode_text v (encode d) (flat d) (encode-IsStripped d).not_empty
        (decode_texts-encode d))

decode-encode : (d : Dict String) → decode (encode d) ≡ some (object d)
decode-encode d = rw (decode, decode_texts-encode d, pairs-flat d) refl

abbrev rename : String → Dict String → Dict String
rename to d = elim (Dict.get "event" d) [
  | none ↦ Dict.pop to (Dict.pop "event" d)
  | some e ↦ (to, e) ∷ Dict.pop "event" d
]

abbrev structlog : Structlog String
structlog = record {
  text = λ s. s;
  event_dict = λ bound fields event. ("event", event) ∷ (fields ++ bound);
  merge_contextvars = λ context d. d ++ context;
  add_log_level = λ method d. ("level", name_of method) ∷ d;
  time_stamper = λ now d. ("timestamp", now) ∷ d;
  stack_info_renderer = λ d. d;
  format_exc_info = λ d. d;
  event_renamer = rename;
  json_renderer = encode;
}

get-append :
    (k : String) (xs ys : Dict String)
    → Dict.get k (xs ++ ys) ≡ or_else (Dict.get k xs) (Dict.get k ys)
unfolding Dict.get
get-append k [] ys = refl
get-append k ((j, v) ∷ xs) ys = ground (arith, get-append k xs ys)

get-rename :
    (to k : String) (d : Dict String)
    → Dict.get k (rename to d)
      ≡ (if to == k then Dict.get "event" d else if "event" == k then none else Dict.get k d)
unfolding Dict.get
get-rename to k d = ground (arith, get-pop to k (Dict.pop "event" d), get-pop "event" k d)

documented : IsDocumented structlog decode
unfolding Dict.get
documented = record {
  event_dict = λ bound fields event k. ground (arith, get-append k fields bound);
  merge_contextvars = λ context d k. get-append k d context;
  add_log_level = λ method d k. refl;
  time_stamper = λ now d k. refl;
  stack_info_renderer = λ d k h. refl;
  format_exc_info = λ d k h. refl;
  event_renamer = get-rename;
  json_renderer = λ d. (encode-IsStripped d, decode-encode d);
}

-- what `_LOGGER` of a service module is, next to the logger that `configure_logging` returns
abbrev configured : Logger String
configured = record { bound = ("service", "service-a") ∷ []; min_level = 20 }

abbrev context : Dict String
context = ("path", "/process") ∷ []

abbrev fields : Dict String
fields = ("error", "refused") ∷ []

abbrev line : String
line =
    encode (processed structlog context "now" info (structlog.event_dict [] fields "fanout_failed"))

log-shown_example :
    (record' : LogRecord String) × (handle_line decode (compose_line "cm-service-a " line)
      ≡ some record')
    × (field_of "level" record' ≡ some "info")
    × (field_of "message" record' ≡ some "fanout_failed")
    × (field_of "timestamp" record' ≡ some "now")
    × ((k : String)
        → is_reserved k ≡ false
        → field_of k record'
          ≡ or_else (or_else (Dict.get k fields) (Dict.get k [])) (Dict.get k context))
unfolding log
log-shown_example =
    log-shown structlog decode documented (get_logger configured) context "now" info "fanout_failed"
      fields "cm-service-a " line refl refl
