-- ===== src/CommandLine.antt =====
-- argparse of Python 3.11, as far as the commands of orchestration/ and monitoring/ use it: options with a value of
-- a type, flags and `--help`, no positional argument, and `-h` the one option of a single letter.
pub mod Assigned
use Prim.Native.Char.{Char, code}
use Prim.Native.String
use cloud_microservices.Prelude.{
  ℕ, String, Bool, true, false, not, ◌&&◌, ◌||◌, ◌==◌, Option, none, some, List, [], ◌∷◌, map, any,
  eqb, leb, is_empty, is_prefix, contains, partition_at, if◌then◌else◌,
}
use cloud_microservices.Prelude.Dict
use cloud_microservices.Prelude.Dict.{Dict, is_some}

-- what `add_argument` says of an option: `store_true`, `help`, or a value that its type accepts
pub data Kind : Type 0 where
  flag help : Kind
  value : (String → Bool) → Kind

-- what an argument is taken for, before the arguments are consumed
pub data Class : Type 0 where
  positional unknown ambiguous : Class
  option : String → Kind → Option String → Class

-- How `parse_args` ends: with the options in their order, by `SystemExit` with 0 or with 2, or with an
-- option that has an empty list for its value, which 3.11 makes of the value `--` behind a `=`.
pub data Parsed {ℓ} (A : Type ℓ) : Type ℓ where
  parsed : A → Parsed A
  helped refused list_valued : Parsed A

abbrev pub map_parsed {ℓ κ} : {A : Type ℓ} {B : Type κ} → (A → B) → Parsed A → Parsed B
map_parsed f (parsed a) = parsed (f a)
map_parsed f helped = helped
map_parsed f refused = refused
map_parsed f list_valued = list_valued

-- an option that was given, with its value if it takes one
abbrev pub Row : Type 0
Row = String × Option String

abbrev pub starts_dash : String → Bool
starts_dash String.[] = false
starts_dash (String.◌∷◌ c s) = eqb (code c) b'-'

abbrev pub starts_dashes : String → Bool
starts_dashes String.[] = false
starts_dashes (String.◌∷◌ c s) = eqb (code c) b'-' && starts_dash s

abbrev pub is_digit : Char → Bool
is_digit c = leb b'0' (code c) && leb (code c) b'9'

abbrev at_end : String → Bool
at_end s = is_empty s || s == "\n"

-- digits up to the end, of which there has been one if `some_digit`
abbrev digits_to_end : Bool → String → Bool
digits_to_end some_digit String.[] = some_digit
digits_to_end some_digit (String.◌∷◌ c s) =
    let rest = digits_to_end true s in
    if is_digit c then rest else some_digit && at_end (String.◌∷◌ c s)

abbrev digits_and_point : String → Bool
digits_and_point String.[] = false
digits_and_point (String.◌∷◌ c s) =
    let rest = digits_and_point s in
    if is_digit c then rest else eqb (code c) b'.' && digits_to_end false s

-- `^-\d+$|^-\d*\.\d+$`
abbrev is_negative_number : String → Bool
is_negative_number String.[] = false
is_negative_number (String.◌∷◌ c s) =
    eqb (code c) b'-' && (digits_to_end false s || digits_and_point s)

-- `option_string[2:]`
abbrev pub behind_letter : String → String
behind_letter String.[] = ""
behind_letter (String.◌∷◌ c String.[]) = ""
behind_letter (String.◌∷◌ c (String.◌∷◌ d s)) = s

-- `option_string[:2]`
abbrev pub with_letter : String → String
with_letter String.[] = ""
with_letter (String.◌∷◌ c String.[]) = String.◌∷◌ c ""
with_letter (String.◌∷◌ c (String.◌∷◌ d s)) = String.◌∷◌ c (String.◌∷◌ d "")

-- `_get_option_tuples` of an argument with two dashes: the options that `prefix` abbreviates
abbrev abbreviated : String → Option String → Dict Kind → List Class
abbreviated prefix explicit [] = []
abbreviated prefix explicit ((name, kind) ∷ t) =
    let rest = abbreviated prefix explicit t in
    if is_prefix prefix name then option name kind explicit ∷ rest else rest

-- `_get_option_tuples` of an argument with one dash
abbrev clustered : String → Dict Kind → List Class
clustered s [] = []
clustered s ((name, kind) ∷ t) =
    let rest = clustered s t in
    if name == with_letter s
    then option name kind (some (behind_letter s)) ∷ rest
    else if is_prefix s name
    then option name kind none ∷ rest
    else rest

abbrev candidates : Dict Kind → String → List Class
candidates t s =
    if starts_dashes s
    then elim (partition_at b'=' s) [
      | none ↦ abbreviated s none t
      | some (prefix, v) ↦ abbreviated prefix (some v) t
    ]
    else clustered s t

-- an argument that begins with a dash and is no option
abbrev unmatched : String → Class
unmatched s = if is_negative_number s || contains b' ' s then positional else unknown

abbrev chosen : String → List Class → Class
chosen s [] = unmatched s
chosen s (c ∷ []) = c
chosen s (c ∷ d ∷ cs) = ambiguous

-- the option in front of a `=`
abbrev assigned : Dict Kind → String → Option Class
assigned t s = elim (partition_at b'=' s) [
  | none ↦ none
  | some (name, v) ↦ elim (Dict.get name t) [
    | none ↦ none
    | some kind ↦ some (option name kind (some v))
  ]
]

abbrev pub is_letter : String → Bool
is_letter String.[] = false
is_letter (String.◌∷◌ c s) = is_empty s

-- `_parse_optional`
unfoldable pub classify : Dict Kind → String → Class
classify t s = if not (starts_dash s) then positional else elim (Dict.get s t) [
  | some kind ↦ option s kind none
  | none ↦
      if is_letter s
      then positional
      else elim (assigned t s) [ some c ↦ c | none ↦ chosen s (candidates t s) ]
]

-- All arguments behind a `--` are positional; the `--` itself is left over like one.
unfoldable pub classify_all : Dict Kind → List String → List (String × Class)
unfolding classify
classify_all t [] = []
classify_all t (s ∷ ss) =
    let rest = classify_all t ss in
    if s == "--" then (s, unknown) ∷ map (λ a. (a, positional)) ss else (s, classify t s) ∷ rest

abbrev pub is_ambiguous : Class → Bool
is_ambiguous positional = false
is_ambiguous unknown = false
is_ambiguous ambiguous = true
is_ambiguous (option name kind explicit) = false

-- `-hh…h` is the option `-h` several times
abbrev all_h : String → Bool
all_h String.[] = true
all_h (String.◌∷◌ c s) = eqb (code c) b'h' && all_h s

abbrev helps : String → Option String → Bool
helps name none = true
helps name (some explicit) = not (starts_dashes name) && not (is_empty explicit) && all_h explicit

abbrev pub given : Row → Parsed (List Row) → Parsed (List Row)
given row = map_parsed (λ rows. row ∷ rows)

-- `_parse_known_args`: `extras` says whether an argument has been left over, which is refused in the end
unfoldable pub consume : Bool → List (String × Class) → Parsed (List Row)
consume extras [] = if extras then refused else parsed []
consume extras ((s, positional) ∷ rest) = consume true rest
consume extras ((s, unknown) ∷ rest) = consume true rest
consume extras ((s, ambiguous) ∷ rest) = refused
consume extras ((s, option name flag none) ∷ rest) = given (name, none) (consume extras rest)
consume extras ((s, option name flag (some explicit)) ∷ rest) = refused
consume extras ((s, option name help explicit) ∷ rest) =
    if helps name explicit then helped else refused
consume extras ((s, option name (value accepts) (some v)) ∷ rest) =
    let more = consume extras rest in
    if v == "--" then list_valued else if accepts v then given (name, some v) more else refused
consume extras ((s, option name (value accepts) none) ∷ []) = refused
consume extras ((s, option name (value accepts) none) ∷ (v, positional) ∷ rest) =
    let more = consume extras rest in if accepts v then given (name, some v) more else refused
consume extras ((s, option name (value accepts) none) ∷ (v, c) ∷ rest) = refused

-- `parse_args`
unfoldable pub parse : Dict Kind → List String → Parsed (List Row)
parse t argv =
    let classes = classify_all t argv in
    if any (λ c. is_ambiguous c.1) classes then refused else consume false classes

-- the attribute of a flag, and that of an option with a value: the last one counts
unfoldable pub is_given : String → List Row → Bool
is_given name rows = any (λ r. r.0 == name) rows

unfoldable pub value_of : String → List Row → Option String
value_of name [] = none
value_of name ((n, v) ∷ rows) =
    let rest = value_of name rows in
    elim rest [ some later ↦ some later | none ↦ if n == name then v else none ]
