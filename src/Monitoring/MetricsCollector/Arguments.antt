-- ===== src/Monitoring/MetricsCollector/Arguments.antt =====
-- monitoring/metrics_collector.py: `_parse_args`, and what pathlib makes of the path of the output on POSIX.
pub mod Paths
use Prim.Native.Char.{code}
use Prim.Native.String
use cloud_microservices.Prelude.{
  String, Bool, true, false, not, ◌&&◌, ◌||◌, ◌==◌, Option, none, some, List, [], ◌∷◌, ◌++◌,
  is_empty, filter, eqb, if◌then◌else◌, Result, ok, err, ◌>>=◌,
}
use cloud_microservices.Prelude.Dict.{Dict, is_some}
use cloud_microservices.Floats.{Floats}
use cloud_microservices.Shared.Env.{Env, env_str, env_float, or_default}
use cloud_microservices.CommandLine.{
  Kind, flag, help, value, Parsed, map_parsed, Row, parse, is_given, value_of, is_letter,
}

-- a `PosixPath`
pub record PosixPath : Type 0 where
  pub root : String
  pub parts : List String

pub record CollectorOptions (F : Type 0) : Type 0 where
  pub output_path : PosixPath
  pub history_path : PosixPath
  pub interval_seconds : F
  pub one_shot : Bool

-- `s.split("/")`: the first component and the others
unfoldable pub split_slash : String → String × List String
split_slash String.[] = ("", [])
split_slash (String.◌∷◌ c s) =
    let (first, rest) = split_slash s in
    if eqb (code c) b'/' then ("", first ∷ rest) else (String.◌∷◌ c first, rest)

-- a component that a path keeps
abbrev is_part : String → Bool
is_part s = not (is_empty s) && not (s == ".")

-- two slashes at the front are a root of their own, and three are one
abbrev root_of : String → String
root_of String.[] = ""
root_of (String.◌∷◌ c String.[]) = if eqb (code c) b'/' then "/" else ""
root_of (String.◌∷◌ c (String.◌∷◌ d String.[])) =
    if not (eqb (code c) b'/') then "" else if eqb (code d) b'/' then "//" else "/"
root_of (String.◌∷◌ c (String.◌∷◌ d (String.◌∷◌ e s))) =
    if not (eqb (code c) b'/')
    then ""
    else if eqb (code d) b'/' && not (eqb (code e) b'/')
    then "//"
    else "/"

-- `Path(s)`
unfoldable pub path_of : String → PosixPath
path_of s =
    let (first, rest) = split_slash s in
    record { root = root_of s; parts = filter is_part (first ∷ rest) }

-- `path.name`, which is empty where there is no component, and the components before it
abbrev pub last_part : List String → String
last_part [] = ""
last_part (s ∷ []) = s
last_part (s ∷ t ∷ ss) = last_part (t ∷ ss)

abbrev pub front_parts : List String → List String
front_parts [] = []
front_parts (s ∷ []) = []
front_parts (s ∷ t ∷ ss) = s ∷ front_parts (t ∷ ss)

abbrev pub name : PosixPath → String
name p = last_part p.parts

-- what stands before the last point, and the text from it on
unfoldable pub last_point : String → Option (String × String)
last_point String.[] = none
last_point (String.◌∷◌ c s) = elim (last_point s) [
  | some (before, behind) ↦ some (String.◌∷◌ c before, behind)
  | none ↦ if eqb (code c) b'.' then some ("", String.◌∷◌ c s) else none
]

-- a name as its stem and its suffix; a point at either end makes no suffix
unfoldable pub stem_and_suffix : String → String × String
stem_and_suffix s = elim (last_point s) [
  | none ↦ (s, "")
  | some (before, behind) ↦
      if is_empty before || is_letter behind then (s, "") else (before, behind)
]

-- `path.suffix`
unfoldable pub suffix : PosixPath → String
suffix p = (stem_and_suffix (name p)).1

-- `path.with_suffix(s)`, for an `s` that begins with a point and has no slash: the `ValueError`, or the path
unfoldable pub with_suffix : String → PosixPath → Result String PosixPath
with_suffix s p =
    let renamed : PosixPath = record {
      root = p.root;
      parts = front_parts p.parts ++ String.◌++◌ (stem_and_suffix (name p)).0 s ∷ [];
    } in
    if is_empty (name p) then err "has an empty name" else ok renamed

module _ (fl : Floats) where
  open fl use {Float}

  abbrev pub options : Dict Kind
  options =
      ("-h", help)
      ∷ ("--help", help)
      ∷ ("--output", value (λ s. true))
      ∷ ("--interval", value (λ s. is_some (fl.parse s)))
      ∷ ("--once", flag)
      ∷ []

  -- the attribute `interval`, whose texts `type=float` has accepted
  abbrev interval_of : Float → Option String → Float
  interval_of default none = default
  interval_of default (some s) = or_default default (fl.parse s)

  -- `Path(args.output)`
  unfoldable pub output_of : Env → List Row → PosixPath
  output_of env rows =
      let default_out = env_str env "METRICS_OUTPUT_PATH" "./metrics/metrics.json" in
      path_of (or_default default_out (value_of "--output" rows))

  unfoldable pub options_of : Env → List Row → Result String (CollectorOptions Float)
  unfolding suffix with_suffix output_of
  options_of env rows = do
    let default_interval = env_float fl env "METRICS_SCRAPE_INTERVAL_SECONDS" (fl.decimal 100 1)
    let out = output_of env rows
    history ← with_suffix (String.◌++◌ (suffix out) ".history.jsonl") out
    ok (record {
      output_path = out;
      history_path = history;
      interval_seconds = interval_of default_interval (value_of "--interval" rows);
      one_shot = is_given "--once" rows;
    })

  -- `_parse_args`: it raises the `ValueError` of `with_suffix` where the output has no name
  unfoldable pub parse_args : Env → List String → Parsed (Result String (CollectorOptions Float))
  parse_args env argv = map_parsed (options_of env) (parse options argv)
