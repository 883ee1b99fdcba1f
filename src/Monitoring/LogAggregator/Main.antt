-- ===== src/Monitoring/LogAggregator/Main.antt =====
-- monitoring/log_aggregator.py: `_amain`, the child process `docker compose logs` from its start to its
-- end.
pub mod Ends
use Prim.Native.String
use cloud_microservices.Prelude.{
  String, Bool, not, Option, none, some, List, [], ◌∷◌, ◌++◌, map, any, ℤ, pos, str_ℤ,
  if◌then◌else◌, ok, err,
}
use cloud_microservices.Shared.Env.{Env}
use cloud_microservices.Shared.Logging.{LoggingError, configure_logging}
use cloud_microservices.Monitoring.LogAggregator.{Json, LogRecord, aggregate}

pub record AggregatorOptions : Type 0 where
  pub project : String
  pub follow : Bool
  pub tail : ℤ

-- what `_amain` does, in order
pub data Effect (J : Type 0) : Type 0 where
  spawned : List String → Effect J
  logged : LogRecord J → Effect J
  terminated killed : Effect J

-- What comes behind the lines that are read: the end of the output; the exception of a line over the limit of the
-- stream, or of one that `json.loads` does not decode for its depth; or nothing, while the output stays open.
pub data Behind : Type 0 where
  ends : Behind
  raises : String → Behind
  silent : Behind

-- What the child does: the lines that are read and decoded, each with whether the stop is set by then; what comes
-- behind them; the exit code, if it has ended when the loop has; that after `terminate`, if it ends in 5 seconds; and
-- that after `kill`.
pub record Child : Type 0 where
  -- whether docker can be started
  pub launched : Bool
  pub lines : List (String × Bool)
  pub behind : Behind
  pub returncode : Option ℤ
  pub on_terminate : Option ℤ
  pub on_kill : ℤ

-- how `_amain` ends; `reading` where it waits for the next line
pub data Exit : Type 0 where
  exited : ℤ → Exit
  raised : String → Exit
  reading : Exit
  -- `FileNotFoundError` of `create_subprocess_exec`
  not_found : Exit
  -- by `configure_logging`
  unlogged : LoggingError → Exit

-- `[binary, *args]`; `which` is the answer of `shutil.which("docker")`
unfoldable pub compose_logs : Option String → AggregatorOptions → List String
compose_logs which opts =
    elim which [ none ↦ "docker" | some path ↦ path ]
    ∷ "compose"
    ∷ "-p"
    ∷ opts.project
    ∷ "logs"
    ∷ String.◌++◌ "--tail=" (str_ℤ opts.tail)
    ∷ (if opts.follow then "--follow" ∷ [] else [])

-- whether the loop stops before the given lines end
abbrev pub is_stopped : List (String × Bool) → Bool
is_stopped = any (λ l. l.1)

-- the `finally` block: `proc.returncode` behind it, and what it does
unfoldable pub reap : {J : Type 0} → Child → Option ℤ × List (Effect J)
reap child = elim child.returncode [
  | some code ↦ (some code, [])
  | none ↦ elim child.on_terminate [
    | some code ↦ (some code, terminated ∷ [])
    | none ↦ (some child.on_kill, terminated ∷ killed ∷ [])
  ]
]

-- `proc.returncode or 0`
abbrev pub or_zero : Option ℤ → ℤ
or_zero none = pos 0
or_zero (some code) = code

module _ {J : Type 0} (loads : String → Option (Json J)) where
  -- `_amain` behind its logger
  unfoldable pub supervise : Option String → AggregatorOptions → Child → Exit × List (Effect J)
  supervise which opts child =
      let (returncode, reaped) = reap child in
      let read : List (Effect J) =
        spawned (compose_logs which opts) ∷ map logged (aggregate loads child.lines) in
      let over : Exit × List (Effect J) = (exited (or_zero returncode), read ++ reaped) in
      if not child.launched
      then (not_found, [])
      else if is_stopped child.lines
      then over
      else elim child.behind [
        | ends ↦ over
        | raises message ↦ (raised message, read ++ reaped)
        | silent ↦ (reading, read)
      ]

  -- `_amain`
  unfoldable pub amain : Env → Option String → AggregatorOptions → Child → Exit × List (Effect J)
  amain env which opts child = elim (configure_logging {J = String} (λ s. s) env "log-aggregator") [
    | err e ↦ (unlogged e, [])
    | ok logger ↦ supervise which opts child
  ]
