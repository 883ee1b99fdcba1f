-- ===== src/Shared/Logging.antt =====
-- shared/logging_config.py: the level of the environment, the logger that `configure_logging` returns, and the line
-- that a call of it writes. The processors are structlog's, and parameters; texts are read as ASCII.
pub mod Levels
use Prim.Native.Nat.{◌-◌}
use Prim.Native.Char.{code}
use cloud_microservices.Prelude.{
  ℕ, String, Bool, true, false, ◌&&◌, Option, none, some, List, [], ◌∷◌, eqb, leb, ltb, is_empty,
  if◌then◌else◌, Result, ok, err,
}
use cloud_microservices.Prelude.Dict.{Dict}
use cloud_microservices.Shared.Env.{Env}

-- an attribute of the module `logging`: a level, or something else
pub data Attribute : Type 0 where
  level : ℕ → Attribute
  no_level : Attribute

pub data LoggingError : Type 0 where
  -- "service_name must be a non-empty string"
  empty_service_name : LoggingError
  -- what `logging.basicConfig` raises for a level that is none
  unknown_level : LoggingError

-- the code of a character's capital
abbrev upper_code : ℕ → ℕ
upper_code n = if leb b'a' n && leb n b'z' then n - 32 else n

-- `s.upper() == name`
unfoldable pub is_upper : String → String → Bool
is_upper String.[] String.[] = true
is_upper String.[] (String.◌∷◌ d t) = false
is_upper (String.◌∷◌ c s) String.[] = false
is_upper (String.◌∷◌ c s) (String.◌∷◌ d t) = eqb (upper_code (code c)) (code d) && is_upper s t

-- The attributes of `logging` in capitals.
abbrev capitals : List (String × Attribute)
capitals =
    ("CRITICAL", level 50)
    ∷ ("FATAL", level 50)
    ∷ ("ERROR", level 40)
    ∷ ("WARNING", level 30)
    ∷ ("WARN", level 30)
    ∷ ("INFO", level 20)
    ∷ ("DEBUG", level 10)
    ∷ ("NOTSET", level 0)
    ∷ ("BASIC_FORMAT", no_level)
    ∷ ("_STYLES", no_level)
    ∷ []

-- `getattr(logging, raw.upper(), logging.INFO)`
unfoldable pub attribute : List (String × Attribute) → String → Attribute
attribute [] raw = level 20
attribute ((name, a) ∷ rest) raw =
    let later = attribute rest raw in if is_upper raw name then a else later

-- `_level_from_env`
unfoldable pub level_from_env : Env → Attribute
level_from_env getenv = elim (getenv "LOG_LEVEL") [
  | none ↦ attribute capitals "INFO"
  | some raw ↦ attribute capitals raw
]

-- a bound logger behind the filter for its level
pub record Logger (J : Type 0) : Type 0 where
  pub bound : Dict J
  pub min_level : ℕ

-- `configure_logging`; `text` makes a value of a text
unfoldable pub configure_logging :
    {J : Type 0} → (String → J) → Env → String → Result LoggingError (Logger J)
configure_logging text getenv service_name =
    if is_empty service_name then err empty_service_name else elim (level_from_env getenv) [
      | no_level ↦ err unknown_level
      | level n ↦ ok (record { bound = ("service", text service_name) ∷ []; min_level = n })
    ]

-- `structlog.get_logger()`, under a configuration that has been made
abbrev pub get_logger : {J : Type 0} → Logger J → Logger J
get_logger configured = record configured { bound = [] }

pub data Method : Type 0 where
  debug info warning error : Method

abbrev pub level_of : Method → ℕ
level_of debug = 10
level_of info = 20
level_of warning = 30
level_of error = 40

abbrev pub name_of : Method → String
name_of debug = "debug"
name_of info = "info"
name_of warning = "warning"
name_of error = "error"

-- structlog: the event of a call, the processors that are configured, and the JSON that they end with
pub record Structlog (J : Type 0) : Type 0 where
  pub text : String → J
  pub event_dict : Dict J → Dict J → String → Dict J
  pub merge_contextvars : Dict J → Dict J → Dict J
  pub add_log_level : Method → Dict J → Dict J
  pub time_stamper : J → Dict J → Dict J
  pub stack_info_renderer : Dict J → Dict J
  pub format_exc_info : Dict J → Dict J
  pub event_renamer : String → Dict J → Dict J
  pub json_renderer : Dict J → String

module _ {J : Type 0} (sl : Structlog J) where
  -- the processors in their order, but for the renderer
  unfoldable pub processed : Dict J → J → Method → Dict J → Dict J
  processed context now method event = sl.event_renamer "message" (
      sl.format_exc_info (
        sl.stack_info_renderer
          (sl.time_stamper now (sl.add_log_level method (sl.merge_contextvars context event)))))

  -- a call of a logger: the line that it writes, unless it is below the level
  unfoldable pub log : Logger J → Dict J → J → Method → String → Dict J → Option String
  unfolding processed
  log logger context now method event fields =
      let entry = processed context now method (sl.event_dict logger.bound fields event) in
      if ltb (level_of method) logger.min_level then none else some (sl.json_renderer entry)
