-- ===== src/Shared/Logging/Levels.antt =====
-- shared/logging_config.py: the environments in which `configure_logging` makes a logger.
use Prim.Native.Char.{Char, code}
use cloud_microservices.Prelude.{
  ℕ, String, ◌≡◌, refl, inl, inr, ◌⊎◌, Bool, true, false, not, ◌&&◌, Option, none, some, arith, eqb,
  is_empty, ok, err, Bool-cases, [], ◌∷◌,
}
use cloud_microservices.Shared.Env.{Env}
use cloud_microservices.Shared.Logging.{
  Attribute, level, no_level, is_upper, attribute, Logger, unknown_level, level_from_env,
  configure_logging,
}

-- whether the logging can be set up: LOG_LEVEL names, in any case, no attribute of logging but a level
abbrev pub can_log : Env → Bool
can_log env = elim (env "LOG_LEVEL") [
  | none ↦ true
  | some raw ↦ not (is_upper raw "BASIC_FORMAT") && not (is_upper raw "_STYLES")
]

is_level : Attribute → Bool
is_level (level n) = true
is_level no_level = false

-- a text is the capitals of one name at most, by the first letters
is_upper-other :
    (raw : String) (c d : Char) (s t : String)
    → eqb (code c) (code d) ≡ false
    → is_upper raw (String.◌∷◌ c s) ≡ true
    → is_upper raw (String.◌∷◌ d t) ≡ false
unfolding is_upper
is_upper-other String.[] c d s t n h = cc
is_upper-other (String.◌∷◌ r rs) c d s t n h = ground arith

-- what a text that is the capitals of such a name is not
Levels : (raw : String) → Type 0
Levels raw =
    (is_upper raw "CRITICAL" ≡ false)
    × (is_upper raw "FATAL" ≡ false)
    × (is_upper raw "ERROR" ≡ false)
    × (is_upper raw "WARNING" ≡ false)
    × (is_upper raw "WARN" ≡ false)
    × (is_upper raw "INFO" ≡ false)
    × (is_upper raw "DEBUG" ≡ false)
    × (is_upper raw "NOTSET" ≡ false)

basic_format-Levels : (raw : String) → is_upper raw "BASIC_FORMAT" ≡ true → Levels raw
unfolding Levels
basic_format-Levels raw h = (
  is_upper-other raw "B" "C" "ASIC_FORMAT" "RITICAL" refl h,
  is_upper-other raw "B" "F" "ASIC_FORMAT" "ATAL" refl h,
  is_upper-other raw "B" "E" "ASIC_FORMAT" "RROR" refl h,
  is_upper-other raw "B" "W" "ASIC_FORMAT" "ARNING" refl h,
  is_upper-other raw "B" "W" "ASIC_FORMAT" "ARN" refl h,
  is_upper-other raw "B" "I" "ASIC_FORMAT" "NFO" refl h,
  is_upper-other raw "B" "D" "ASIC_FORMAT" "EBUG" refl h,
  is_upper-other raw "B" "N" "ASIC_FORMAT" "OTSET" refl h,
)

styles-Levels : (raw : String) → is_upper raw "_STYLES" ≡ true → Levels raw
unfolding Levels
styles-Levels raw h = (
  is_upper-other raw "_" "C" "STYLES" "RITICAL" refl h,
  is_upper-other raw "_" "F" "STYLES" "ATAL" refl h,
  is_upper-other raw "_" "E" "STYLES" "RROR" refl h,
  is_upper-other raw "_" "W" "STYLES" "ARNING" refl h,
  is_upper-other raw "_" "W" "STYLES" "ARN" refl h,
  is_upper-other raw "_" "I" "STYLES" "NFO" refl h,
  is_upper-other raw "_" "D" "STYLES" "EBUG" refl h,
  is_upper-other raw "_" "N" "STYLES" "OTSET" refl h,
)

Attribute-cases : (a : Attribute) → ((n : ℕ) × (a ≡ level n)) ⊎ (a ≡ no_level)
Attribute-cases (level n) = inl (n, refl)
Attribute-cases no_level = inr refl

level-default : is_level (level_from_env (λ name. none)) ≡ true
unfolding is_level level_from_env attribute is_upper
level-default = refl

level-can_log : (o : Option String) → is_level (level_from_env (λ name. o)) ≡ can_log (λ name. o)
unfolding is_level level_from_env attribute Levels
level-can_log none = level-default
level-can_log (some raw) = elim (Bool-cases (is_upper raw "BASIC_FORMAT")) [
  | inl h ↦ let other = basic_format-Levels raw h in ground arith
  | inr n ↦ elim (Bool-cases (is_upper raw "_STYLES")) [
    | inl h ↦ let other = styles-Levels raw h in ground arith
    | inr n' ↦ ground arith
  ]
]

-- A logger is made exactly when the level can be set up, and the level is all that is refused for a service that has a name.
pub configure_logging-can_log :
    {J : Type 0} (text : String → J) (env : Env) (name : String)
    → is_empty name ≡ false
    → ((can_log env ≡ true) × (logger : Logger J) × (configure_logging text env name ≡ ok logger))
      ⊎ ((can_log env ≡ false) × (configure_logging text env name ≡ err unknown_level))
unfolding configure_logging is_level level_from_env
configure_logging-can_log text env name named =
    let l = level-can_log (env "LOG_LEVEL") in
    elim (Attribute-cases (level_from_env env)) [
      | inl (n, e) ↦ inl (
        ground arith,
        record { bound = ("service", text name) ∷ []; min_level = n },
        rw (named, e) refl,
      )
      | inr e ↦ inr (ground arith, rw (named, e) refl)
    ]
