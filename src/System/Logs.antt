-- ===== src/System/Logs.antt =====
-- shared/logging_config.py and monitoring/log_aggregator.py: the lines that a service writes, as
-- docker compose shows them behind the container's name, in the aggregator.
use Prim.Native.String
use text.Mathlib.TextLemmas.{nil-append, cons-append}
use cloud_microservices.Prelude.{
  String, ◌≡◌, refl, subst, ap, ◌∙◌, Bool, true, false, ◌||◌, ◌==◌, Option, none, some, arith,
  is_empty, strip, lstrip, rstrip, if◌then◌else◌, ltb,
}
use cloud_microservices.Prelude.Dict
use cloud_microservices.Prelude.Dict.{Dict}
use cloud_microservices.Shared.Logging.{
  Logger, Method, name_of, level_of, Structlog, processed, log,
}
use cloud_microservices.Monitoring.LogAggregator.{Json, object, LogRecord, emit, handle_line}
use cloud_microservices.Monitoring.LogAggregator.Laws.{field_of, recorded, field_of-recorded}
use cloud_microservices.Monitoring.LogAggregator.Lines.{has_bar, parse_compose_line_lem}

append-not_empty : (a b : String) → is_empty b ≡ false → is_empty (String.◌++◌ a b) ≡ false
append-not_empty String.[] b h = rw (nil-append b) h
append-not_empty (String.◌∷◌ c s) b h = rw (cons-append c s b) refl

-- a text that ends in no space keeps its end behind any other
rstrip-append :
    (a b : String) → is_empty b ≡ false → rstrip b ≡ b → rstrip (String.◌++◌ a b) ≡ String.◌++◌ a b
unfolding rstrip
rstrip-append String.[] b n h = rw (nil-append b) h
rstrip-append (String.◌∷◌ c s) b n h =
    let rest = rstrip-append s b n h in
    let full = append-not_empty s b n in rw (cons-append c s b) (ground (arith, rest, full))

-- a text with no space at its ends
pub record IsStripped (s : String) : Type 0 where
  pub not_empty : is_empty s ≡ false
  pub left : lstrip s ≡ s
  pub right : rstrip s ≡ s

-- how docker compose shows a line
abbrev pub compose_line : String → String → String
compose_line container line = String.◌++◌ container (String.◌∷◌ "|" (String.◌∷◌ " " line))

strip-space : (line : String) → IsStripped line → strip (String.◌∷◌ " " line) ≡ line
unfolding strip lstrip
strip-space line s = rw s.left s.right

rstrip-compose_line :
    (container line : String)
    → IsStripped line
    → rstrip (compose_line container line) ≡ compose_line container line
rstrip-compose_line container line s =
    let tail : String = String.◌∷◌ "|" (String.◌∷◌ " " line) in
    rstrip-append container tail refl (unfold rstrip in rw (s.right, s.not_empty) refl)

module _ {J : Type 0} (loads : String → Option (Json J)) where
  emit-recorded :
      (container line : String) (d : Dict J)
      → is_empty line ≡ false
      → loads line ≡ some (object d)
      → emit loads container line ≡ some (recorded container d)
  unfolding emit recorded
  emit-recorded container line d n l = rw (n, l) refl

  handle_line-recorded :
      (container line : String) (d : Dict J)
      → has_bar container ≡ false
      → IsStripped line
      → loads line ≡ some (object d)
      → handle_line loads (compose_line container line) ≡ some (recorded (strip container) d)
  unfolding handle_line
  handle_line-recorded container line d bar s l =
      rw
        (
          rstrip-compose_line container line s,
          (parse_compose_line_lem container (String.◌∷◌ " " line) bar).0,
          strip-space line s,
        )
        (emit-recorded (strip container) line d s.not_empty l)

line_of : (b : Bool) (l line : String) → (if b then none else some l) ≡ some line → l ≡ line
line_of true l line h = cc
line_of false l line h = ground arith

-- keys that a processor writes or removes
abbrev pub is_reserved : String → Bool
is_reserved k =
    "level" == k
    || "message" == k
    || "timestamp" == k
    || "event" == k
    || "exc_info" == k
    || "exception" == k
    || "stack_info" == k
    || "stack" == k

-- the first of two places that has the key
abbrev pub or_else : {J : Type 0} → Option J → Option J → Option J
or_else (some v) o = some v
or_else none o = o

-- What structlog documents: under which key each processor writes, that it leaves the others
-- alone, and that the renderer writes one line of JSON.
pub record IsDocumented {J : Type 0} (sl : Structlog J) (loads : String → Option (Json J))
    : Type 0 where
  pub event_dict :
      (bound fields : Dict J) (event k : String)
      → Dict.get k (sl.event_dict bound fields event) ≡ (
          if "event" == k
          then some (sl.text event)
          else or_else (Dict.get k fields) (Dict.get k bound))
  pub merge_contextvars :
      (context d : Dict J) (k : String)
      → Dict.get k (sl.merge_contextvars context d) ≡ or_else (Dict.get k d) (Dict.get k context)
  pub add_log_level :
      (method : Method) (d : Dict J) (k : String)
      → Dict.get k (sl.add_log_level method d)
        ≡ (if "level" == k then some (sl.text (name_of method)) else Dict.get k d)
  pub time_stamper :
      (now : J) (d : Dict J) (k : String)
      → Dict.get k (sl.time_stamper now d) ≡ (if "timestamp" == k then some now else Dict.get k d)
  pub stack_info_renderer :
      (d : Dict J) (k : String)
      → ("stack_info" == k || "stack" == k) ≡ false
      → Dict.get k (sl.stack_info_renderer d) ≡ Dict.get k d
  pub format_exc_info :
      (d : Dict J) (k : String)
      → ("exc_info" == k || "exception" == k) ≡ false
      → Dict.get k (sl.format_exc_info d) ≡ Dict.get k d
  pub event_renamer :
      (to k : String) (d : Dict J)
      → Dict.get k (sl.event_renamer to d)
        ≡ (if to == k then Dict.get "event" d else if "event" == k then none else Dict.get k d)
  pub json_renderer :
      (d : Dict J)
      → IsStripped (sl.json_renderer d) × (loads (sl.json_renderer d) ≡ some (object d))

module _ {J : Type 0} (sl : Structlog J) (loads : String → Option (Json J)) where
  -- what the dictionary of a call holds
  abbrev pub entry : Logger J → Dict J → J → Method → String → Dict J → Dict J
  entry logger context now method event fields =
      processed sl context now method (sl.event_dict logger.bound fields event)

  module _ (doc : IsDocumented sl loads) (logger : Logger J) (context : Dict J) (now : J)
      (method : Method) (event : String) (fields : Dict J) where
    -- the dictionary that the last processor but one hands on
    abbrev before : Dict J
    before = sl.format_exc_info (
        sl.stack_info_renderer (
          sl.time_stamper now (
            sl.add_log_level method
              (sl.merge_contextvars context (sl.event_dict logger.bound fields event)))))

    -- what a call gives under a key, the names of the processors aside
    abbrev pub given : String → Option J
    given k = or_else (or_else (Dict.get k fields) (Dict.get k logger.bound)) (Dict.get k context)

    get-before :
        (k : String)
        → ("exc_info" == k || "exception" == k) ≡ false
        → ("stack_info" == k || "stack" == k) ≡ false
        → Dict.get k before ≡ (
            if "timestamp" == k
            then some now
            else if "level" == k
            then some (sl.text (name_of method))
            else or_else
                (if "event" == k
                  then some (sl.text event)
                  else or_else (Dict.get k fields) (Dict.get k logger.bound))
                (Dict.get k context))
    get-before k exc stack =
        doc.format_exc_info _ k exc
        ∙ doc.stack_info_renderer _ k stack
        ∙ doc.time_stamper now _ k
        ∙ ap (λ o. if "timestamp" == k then some now else o)
            (doc.add_log_level method _ k
              ∙ ap (λ o. if "level" == k then some (sl.text (name_of method)) else o)
                  (doc.merge_contextvars context _ k
                    ∙ ap (λ o. or_else o (Dict.get k context))
                        (doc.event_dict logger.bound fields event k)))

    get-level :
        Dict.get "level" (entry logger context now method event fields)
        ≡ some (sl.text (name_of method))
    unfolding processed
    get-level = doc.event_renamer "message" "level" before ∙ get-before "level" refl refl

    get-timestamp : Dict.get "timestamp" (entry logger context now method event fields) ≡ some now
    unfolding processed
    get-timestamp =
        doc.event_renamer "message" "timestamp" before ∙ get-before "timestamp" refl refl

    get-message :
        Dict.get "message" (entry logger context now method event fields) ≡ some (sl.text event)
    unfolding processed
    get-message = doc.event_renamer "message" "message" before ∙ get-before "event" refl refl

    get-given :
        (k : String)
        → is_reserved k ≡ false
        → Dict.get k (entry logger context now method event fields) ≡ given k
    unfolding processed
    get-given k free =
        let exc : ("exc_info" == k || "exception" == k) ≡ false = ground arith in
        let stack : ("stack_info" == k || "stack" == k) ≡ false = ground arith in
        let renamed = doc.event_renamer "message" k before in
        let held = get-before k exc stack in ground (arith, renamed, held)

    -- If structlog works as documented, each line that a call of a logger writes is taken in by
    -- the aggregator, behind the name of its container, as one record: it shows the level, the
    -- message and the time of the call, and under every other key, `service` too, but for `event`, `exc_info`,
    -- `exception`, `stack_info` and `stack`, which the processors use, the field of the call, or else that of the
    -- logger, or else that of the request's context, if there is any.
    pub log-shown :
        (container line : String)
        → has_bar container ≡ false
        → log sl logger context now method event fields ≡ some line
        → (record' : LogRecord J) × (handle_line loads (compose_line container line) ≡ some record')
          × (field_of "level" record' ≡ some (sl.text (name_of method)))
          × (field_of "message" record' ≡ some (sl.text event))
          × (field_of "timestamp" record' ≡ some now)
          × ((k : String) → is_reserved k ≡ false → field_of k record' ≡ given k)
    unfolding log
    log-shown container line bar written =
        let d = entry logger context now method event fields in
        let (stripped, loaded) = doc.json_renderer d in
        let same : sl.json_renderer d ≡ line =
          line_of (ltb (level_of method) logger.min_level) (sl.json_renderer d) line written in
        let shown = field_of-recorded (strip container) in
        (
          recorded (strip container) d,
          subst
              (λ l.
                handle_line loads (compose_line container l) ≡ some (recorded (strip container) d))
              same
              (handle_line-recorded loads container (sl.json_renderer d) d bar stripped loaded),
          shown "level" d ∙ get-level,
          shown "message" d ∙ get-message,
          shown "timestamp" d ∙ get-timestamp,
          λ k free. shown k d ∙ get-given k free,
        )
