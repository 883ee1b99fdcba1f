-- ===== src/Monitoring/LogAggregator/Arguments.antt =====
-- monitoring/log_aggregator.py: `_parse_args`, and that it reads back the options of a command line.
use Prim.Native.String
use cloud_microservices.Prelude.{
  String, ◌≡◌, refl, ap, Bool, true, false, not, ◌==◌, Option, none, some, List, [], ◌∷◌, any,
  arith, ℤ, pos, str_ℤ, if◌then◌else◌, eq-false_of, strip,
}
use cloud_microservices.Prelude.Dict
use cloud_microservices.Prelude.Dict.{Dict, is_some}
use cloud_microservices.Shared.Env.{int_of, signed, digits_from}
use cloud_microservices.Shared.Env.Decimals.{int_of-str_ℤ}
use cloud_microservices.CommandLine.{
  Kind, flag, help, value, Parsed, parsed, map_parsed, Row, parse, is_given, value_of, option,
  classify, classify_all, consume, is_ambiguous, refused,
}
use cloud_microservices.CommandLine.Assigned.{classify_all-assigned}
use cloud_microservices.Monitoring.LogAggregator.Main.{AggregatorOptions}

-- `type=int`
abbrev is_int : String → Bool
is_int s = is_some (int_of s)

abbrev options : Dict Kind
options =
    ("-h", help)
    ∷ ("--help", help)
    ∷ ("--project", value (λ s. true))
    ∷ ("--no-follow", flag)
    ∷ ("--tail", value is_int)
    ∷ []

abbrev or_default {ℓ} : {A : Type ℓ} → A → Option A → A
or_default default none = default
or_default default (some a) = a

-- the attribute `tail`, whose texts `type=int` has accepted
abbrev tail_of : Option String → ℤ
tail_of none = pos 200
tail_of (some s) = or_default (pos 200) (int_of s)

abbrev options_of : List Row → AggregatorOptions
options_of rows = record {
  project = or_default "cloud-microservices" (value_of "--project" rows);
  follow = not (is_given "--no-follow" rows);
  tail = tail_of (value_of "--tail" rows);
}

-- `_parse_args`
unfoldable pub parse_args : List String → Parsed AggregatorOptions
parse_args argv = map_parsed options_of (parse options argv)

-- the command line of some options, each value behind a `=`
abbrev pub argv_of : AggregatorOptions → List String
argv_of opts =
    String.◌++◌ "--project" (String.◌∷◌ "=" opts.project)
    ∷ String.◌++◌ "--tail" (String.◌∷◌ "=" (str_ℤ opts.tail))
    ∷ (if opts.follow then [] else "--no-follow" ∷ [])

int_of-dashes : int_of "--" ≡ none
unfolding int_of signed strip digits_from
int_of-dashes = refl

int-not_dashes : (s : String) (n : ℤ) → int_of s ≡ some n → s == "--" ≡ false
int-not_dashes s n h = eq-false_of int_of s "--" (λ e. ground (arith, int_of-dashes))

-- the arguments behind the two values
abbrev flags_of : Bool → List String
flags_of follow = if follow then [] else "--no-follow" ∷ []

abbrev flag_rows : Bool → List Row
flag_rows follow = if follow then [] else ("--no-follow", none) ∷ []

consumed :
    (project tail_text : String) (follow : Bool) (a b : String)
    → project == "--" ≡ false
    → tail_text == "--" ≡ false
    → is_int tail_text ≡ true
    → let classes =
        (a, option "--project" (value (λ s. true)) (some project))
        ∷ (b, option "--tail" (value is_int) (some tail_text))
        ∷ classify_all options (flags_of follow) in
      (if any (λ c. is_ambiguous c.1) classes then refused else consume false classes)
      ≡ parsed (("--project", some project) ∷ ("--tail", some tail_text) ∷ flag_rows follow)
unfolding consume classify_all classify Dict.get
consumed project tail_text true a b p t i = rw (p, t, i) refl
consumed project tail_text false a b p t i = rw (p, t, i) refl

parse-argv_of :
    (opts : AggregatorOptions)
    → opts.project == "--" ≡ false
    → parse options (argv_of opts)
      ≡ parsed (
          ("--project", some opts.project)
          ∷ ("--tail", some (str_ℤ opts.tail))
          ∷ flag_rows opts.follow)
unfolding parse Dict.get
parse-argv_of opts plain =
    let text = str_ℤ opts.tail in
    let back = int_of-str_ℤ opts.tail in
    let first : String = String.◌++◌ "--project" (String.◌∷◌ "=" opts.project) in
    let tail : String = String.◌++◌ "--tail" (String.◌∷◌ "=" text) in
    let p =
      classify_all-assigned options "-" "-" "project" opts.project (value (λ s. true))
        (tail ∷ flags_of opts.follow) refl refl refl refl in
    let q =
      classify_all-assigned options "-" "-" "tail" text (value is_int) (flags_of opts.follow) refl
        refl refl refl in
    rw (p, q)
      (consumed opts.project text opts.follow first tail plain (int-not_dashes text opts.tail back)
        (ap is_some back))

options_of-rows :
    (project : String) (follow : Bool) (tail : ℤ)
    → options_of (("--project", some project) ∷ ("--tail", some (str_ℤ tail)) ∷ flag_rows follow)
      ≡ record { project = project; follow = follow; tail = tail }
unfolding value_of is_given
options_of-rows project true tail = rw (int_of-str_ℤ tail) refl
options_of-rows project false tail = rw (int_of-str_ℤ tail) refl

-- The options of the command line that spells them out are read back, if the project is not `--`.
pub parse_args-argv_of :
    (opts : AggregatorOptions)
    → opts.project == "--" ≡ false
    → parse_args (argv_of opts) ≡ parsed opts
unfolding parse_args
parse_args-argv_of opts plain =
    rw (parse-argv_of opts plain) (ap parsed (options_of-rows opts.project opts.follow opts.tail))
