-- ===== src/Monitoring/MetricsCollector/Arguments/Paths.antt =====
-- monitoring/metrics_collector.py: where the history file stands.
use Prim.Native.Char.{code}
use Prim.Native.String
use text.Mathlib.TextLemmas.{append-nil, nil-append, cons-append, append_assoc}
use cloud_microservices.Prelude.{
  String, ◌≡◌, refl, sym, subst, ap, ◌∙◌, inl, inr, Bool, true, false, ◌||◌, Option, none, some,
  List, [], ◌∷◌, ◌++◌, ◌+◌, ◌≢◌, chars, arith, eqb, is_empty, if◌then◌else◌, Result, ok, err, ◌>>=◌,
  Bool-cases,
}
use cloud_microservices.Floats.{Floats}
use cloud_microservices.Shared.Env.{Env}
use cloud_microservices.CommandLine.{
  Parsed, parsed, helped, refused, list_valued, map_parsed, parse, Row, is_letter,
}
use cloud_microservices.Monitoring.MetricsCollector.Arguments.{
  PosixPath, CollectorOptions, last_part, front_parts, name, last_point, stem_and_suffix, suffix,
  with_suffix, options, output_of, options_of, parse_args,
}

-- the two parts of `s`, if there are two
abbrev Makes : String → Option (String × String) → Type 0
Makes s none = Unit
Makes s (some (before, behind)) = String.◌++◌ before behind ≡ s

last_point-Makes : (s : String) → Makes s (last_point s)
unfolding last_point
last_point-Makes String.[] = tt
last_point-Makes (String.◌∷◌ c s) = go (last_point s) (last_point-Makes s)
  where
    go :
        (o : Option (String × String))
        → Makes s o
        → Makes (String.◌∷◌ c s) (elim o [
          | some (before, behind) ↦ some (String.◌∷◌ c before, behind)
          | none ↦ if eqb (code c) b'.' then some ("", String.◌∷◌ c s) else none
        ])
    go (some (a, b)) h = cons-append c a b ∙ ap (String.◌∷◌ c) h
    go none h = elim (Bool-cases (eqb (code c) b'.')) [
      | inl point ↦ rw point (nil-append (String.◌∷◌ c s))
      | inr other ↦ rw other tt
    ]

-- the stem and the suffix make the name
stem-append-suffix : (s : String) → String.◌++◌ (stem_and_suffix s).0 (stem_and_suffix s).1 ≡ s
unfolding stem_and_suffix
stem-append-suffix s = go (last_point s) (last_point-Makes s)
  where
    go :
        (o : Option (String × String))
        → Makes s o
        → let (stem, suffix) : String × String = elim o [
          | none ↦ (s, "")
          | some (before, behind) ↦
              if is_empty before || is_letter behind then (s, "") else (before, behind)
        ] in
          String.◌++◌ stem suffix ≡ s
    go none h = append-nil s
    go (some (a, b)) h = elim (Bool-cases (is_empty a || is_letter b)) [
      | inl whole ↦ rw whole (append-nil s)
      | inr there ↦ rw there h
    ]

last_part-append : (ss : List String) (s : String) → last_part (ss ++ s ∷ []) ≡ s
last_part-append [] s = refl
last_part-append (t ∷ []) s = refl
last_part-append (t ∷ u ∷ ss) s = last_part-append (u ∷ ss) s

front_parts-append : (ss : List String) (s : String) → front_parts (ss ++ s ∷ []) ≡ ss
front_parts-append [] s = refl
front_parts-append (t ∷ []) s = refl
front_parts-append (t ∷ u ∷ ss) s = ap (λ r. t ∷ r) (front_parts-append (u ∷ ss) s)

-- The path `q` stands beside `p`, and its name is that of `p` with `text` behind it.
pub record IsNamedAfter (p : PosixPath) (text : String) (q : PosixPath) : Type 0 where
  pub same_root : q.root ≡ p.root
  pub same_folder : front_parts q.parts ≡ front_parts p.parts
  pub longer : name q ≡ String.◌++◌ (name p) text

-- `with_suffix` on a suffix that extends the old one: it raises exactly where there is no name to extend
abbrev Extends : PosixPath → String → Result String PosixPath → Type 0
Extends p text (err message) = is_empty (name p) ≡ true
Extends p text (ok q) = (is_empty (name p) ≡ false) × IsNamedAfter p text q

with_suffix-Extends :
    (p : PosixPath) (text : String) → Extends p text (with_suffix (String.◌++◌ (suffix p) text) p)
unfolding with_suffix suffix
with_suffix-Extends p text = elim (Bool-cases (is_empty (name p))) [
  | inl bare ↦ rw bare bare
  | inr named ↦ rw named (
    named,
    record {
      same_root = refl;
      same_folder =
          front_parts-append (front_parts p.parts) (String.◌++◌ stem (String.◌++◌ end text));
      longer =
          last_part-append (front_parts p.parts) (String.◌++◌ stem (String.◌++◌ end text))
          ∙ sym (append_assoc stem end text)
          ∙ ap (λ s. String.◌++◌ s text) (stem-append-suffix (name p));
    },
  )
]
  where
    stem : String
    stem = (stem_and_suffix (name p)).0

    end : String
    end = (stem_and_suffix (name p)).1

chars-append : (s t : String) → chars (String.◌++◌ s t) ≡ chars s + chars t
chars-append String.[] t = rw (nil-append t) (omega arith)
chars-append (String.◌∷◌ c s) t = rw (cons-append c s t) (omega (arith, chars-append s t))

apart_of_longer : (p q : PosixPath) → name q ≡ String.◌++◌ (name p) ".history.jsonl" → q ≢ p
apart_of_longer p q longer e =
    let same = ap (λ r. chars (name r)) e in
    let more = ap chars longer ∙ chars-append (name p) ".history.jsonl" in
    absurd (omega (arith, same, more))

module _ (fl : Floats) where
  open fl use {Float}

  -- the two files of a collection
  abbrev pub IsApart : CollectorOptions Float → Type 0
  IsApart opts =
      (is_empty (name opts.output_path) ≡ false)
      × IsNamedAfter opts.output_path ".history.jsonl" opts.history_path
      × (opts.history_path ≢ opts.output_path)

  abbrev IsApartIfOk : Result String (CollectorOptions Float) → Type 0
  IsApartIfOk (ok opts) = IsApart opts
  IsApartIfOk (err message) = Unit

  abbrev IsApartIfParsed : Parsed (Result String (CollectorOptions Float)) → Type 0
  IsApartIfParsed (parsed r) = IsApartIfOk r
  IsApartIfParsed helped = Unit
  IsApartIfParsed refused = Unit
  IsApartIfParsed list_valued = Unit

  bind-IsApart :
      (out : PosixPath) (r : Result String PosixPath) (interval : Float) (once : Bool)
      → Extends out ".history.jsonl" r
      → IsApartIfOk (
          r >>= λ history. ok (record {
            output_path = out;
            history_path = history;
            interval_seconds = interval;
            one_shot = once;
          }))
  bind-IsApart out (err message) interval once h = tt
  bind-IsApart out (ok history) interval once (named, after) =
      (named, after, apart_of_longer out history after.longer)

  options_of-IsApart : (env : Env) (rows : List Row) → IsApartIfOk (options_of fl env rows)
  unfolding options_of
  options_of-IsApart env rows =
      let out = output_of fl env rows in
      bind-IsApart out (with_suffix (String.◌++◌ (suffix out) ".history.jsonl") out) _ _
        (with_suffix-Extends out ".history.jsonl")

  map-IsApart :
      (env : Env) (r : Parsed (List Row)) → IsApartIfParsed (map_parsed (options_of fl env) r)
  map-IsApart env (parsed rows) = options_of-IsApart env rows
  map-IsApart env helped = tt
  map-IsApart env refused = tt
  map-IsApart env list_valued = tt

  -- Options that are accepted keep the history beside the output, under its name with `.history.jsonl`
  -- behind it, which is another file; an output without a name is never accepted.
  pub parse_args-IsApart :
      (env : Env) (argv : List String) (opts : CollectorOptions Float)
      → parse_args fl env argv ≡ parsed (ok opts)
      → IsApart opts
  unfolding parse_args
  parse_args-IsApart env argv opts h =
      subst IsApartIfParsed h (map-IsApart env (parse (options fl) argv))
