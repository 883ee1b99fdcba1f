-- ===== src/Orchestration/Recovery.antt =====
-- orchestration/recovery.py: the watcher that counts failed probes and restarts containers.
-- A mutable `_ServiceRuntime` is a value in the dictionary that is written back after its update. Where
-- `create_subprocess_exec` cannot start the docker binary it raises, and so do `_recover`, `_tick` and `run`.
pub mod History
pub mod Invariant
pub mod Safety
pub mod Runs
pub mod Start
pub mod Counting
pub mod Restarts
pub mod Quiet
pub mod Loop
pub mod Command
use cloud_microservices.Prelude.{
  ℕ, zero, ◌+◌, String, Bool, true, false, not, ◌&&◌, Option, none, some, List, [], ◌∷◌, ◌++◌, ℤ,
  pos, ltb, leb_ℤ, if◌then◌else◌, Result, ok, err, ◌>>=◌,
}
use cloud_microservices.Prelude.Dict
use cloud_microservices.Prelude.Dict.{Dict}
use cloud_microservices.Floats.{Floats}
use cloud_microservices.Http.{Exchange, Httpx}
use cloud_microservices.Shared.Env.{Env, env_int, env_float}
use cloud_microservices.Shared.Logging.{LoggingError}
use cloud_microservices.Orchestration.Targets.{ServiceTarget}
use cloud_microservices.Orchestration.Health.{HealthResult, probe_all}

pub record WatcherConfig (F : Type 0) : Type 0 where
  pub poll_interval_seconds : F
  pub failure_threshold : ℤ
  pub recovery_backoff_seconds : F
  pub docker_bin : String

-- `RecoveryEvent` of shared/models.py; a time is the number of microseconds of its `datetime`
pub record RecoveryEvent (F : Type 0) : Type 0 where
  pub service : String
  pub detected_at : ℕ
  pub recovered_at : Option ℕ
  pub duration_seconds : Option F
  pub action : String
  pub success : Bool

-- `_ServiceRuntime`
pub record ServiceRuntime (F : Type 0) : Type 0 where
  pub target : ServiceTarget
  pub consecutive_failures : ℕ
  pub history : List (RecoveryEvent F)

pub record RecoveryWatcher (F : Type 0) : Type 0 where
  pub targets : List ServiceTarget
  pub config : WatcherConfig F
  pub runtimes : Dict (ServiceRuntime F)
  pub stop : Bool
  pub recovery_count : Dict ℕ

-- What the watcher does that others can see: log lines, `docker start`, and the back-off.
pub data Action (F : Type 0) : Type 0 where
  recovered_passively : String → ℕ → Action F
  check_failed : String → ℕ → String → Action F
  docker_start : String → Action F
  recovery_event : String → Bool → ℕ → Action F
  slept : F → Action F

-- What one recovery meets: whether the docker binary can be started, the clock before and after, and the
-- exit code of `docker start`.
pub record Attempt (F : Type 0) : Type 0 where
  pub launched : Bool
  pub detected : ℕ
  pub recovered : ℕ
  pub duration : F
  pub returncode : ℤ

-- What one poll cycle meets.
pub record Poll (J F : Type 0) : Type 0 where
  pub get : String → Exchange J
  pub attempt : String → Attempt F
  -- whether `request_stop` is called by the end of the wait behind this cycle
  pub stop_requested : Bool

pub data WatchError : Type 0 where
  -- of `configure_logging`, which the two commands call
  logging_error : LoggingError → WatchError
  key_error : String → WatchError
  -- of the binary
  file_not_found_error : String → WatchError

-- `WatcherConfig.from_env`; `which` is the answer of `shutil.which("docker")`
unfoldable pub from_env : (fl : Floats) → Env → Option String → WatcherConfig fl.Float
from_env fl env which = record {
  poll_interval_seconds = env_float fl env "HEALTH_POLL_INTERVAL_SECONDS" (fl.decimal 50 1);
  failure_threshold = env_int env "HEALTH_FAILURE_THRESHOLD" (pos 3);
  recovery_backoff_seconds = env_float fl env "RECOVERY_BACKOFF_SECONDS" (fl.decimal 20 1);
  docker_bin = elim which [ none ↦ "docker" | some path ↦ path ];
}

-- a `defaultdict(int)` read
abbrev pub count_of : String → Dict ℕ → ℕ
count_of name counts = elim (Dict.get name counts) [ none ↦ 0 | some n ↦ n ]

-- `_docker_start` returns whether the command exits with 0
unfoldable pub docker_start_ok : ℤ → Bool
docker_start_ok (pos zero) = true
docker_start_ok _ = false

module _ {F : Type 0} where
  fresh_runtimes : Dict (ServiceRuntime F) → List ServiceTarget → Dict (ServiceRuntime F)
  fresh_runtimes runtimes [] = runtimes
  fresh_runtimes runtimes (t ∷ ts) =
      fresh_runtimes
        (Dict.put t.name (record { target = t; consecutive_failures = 0; history = [] }) runtimes)
        ts

  -- `RecoveryWatcher.__init__`
  unfoldable pub init : List ServiceTarget → WatcherConfig F → RecoveryWatcher F
  unfolding fresh_runtimes
  init targets config = record {
    targets = targets;
    config = config;
    runtimes = fresh_runtimes [] targets;
    stop = false;
    recovery_count = [];
  }

  unfoldable pub request_stop : RecoveryWatcher F → RecoveryWatcher F
  request_stop w = record w { stop = true }

module _ (fl : Floats) where
  open fl use {Float, round}

  -- the `RecoveryEvent` that `_recover` records
  unfoldable pub event_of : ServiceTarget → Attempt Float → RecoveryEvent Float
  event_of target a = record {
    service = target.name;
    detected_at = a.detected;
    recovered_at = if docker_start_ok a.returncode then some a.recovered else none;
    duration_seconds = some (round a.duration 3);
    action = "docker_start";
    success = docker_start_ok a.returncode;
  }

  -- `_recover`, on the runtime that stands under `name`, where docker can be started
  unfoldable pub recover :
      RecoveryWatcher Float
      → String
      → ServiceRuntime Float
      → (String → Attempt Float)
      → RecoveryWatcher Float × List (Action Float)
  unfolding event_of
  recover w name runtime attempt =
      let target = runtime.target in
      let a = attempt target.container in
      let count : ℕ = count_of target.name w.recovery_count + 1 in
      (
        record w {
          runtimes =
              Dict.put name
                (record runtime {
                  history = runtime.history ++ event_of target a ∷ [];
                  consecutive_failures = 0;
                })
                w.runtimes;
          recovery_count = Dict.put target.name count w.recovery_count;
        },
        docker_start target.container
            ∷ recovery_event target.name (docker_start_ok a.returncode) count
            ∷ slept w.config.recovery_backoff_seconds
            ∷ [],
      )

  -- the body of the loop of `_tick`, on the runtime of the result's target
  unfoldable pub react :
      RecoveryWatcher Float
      → ServiceRuntime Float
      → HealthResult
      → (String → Attempt Float)
      → RecoveryWatcher Float × List (Action Float)
  unfolding recover
  react w runtime result attempt =
      let name = result.target.name in
      let failures : ℕ = runtime.consecutive_failures + 1 in
      let warning = check_failed name failures result.detail in
      let failing = record runtime { consecutive_failures = failures } in
      let recovering = recover w name failing attempt in
      if result.ok
      then (
        record w {
          runtimes = Dict.put name (record runtime { consecutive_failures = 0 }) w.runtimes;
        },
        (if ltb 0 runtime.consecutive_failures
            then recovered_passively name runtime.consecutive_failures ∷ []
            else []),
      )
      else if leb_ℤ w.config.failure_threshold (pos failures)
      then (recovering.0, warning ∷ recovering.1)
      else (record w { runtimes = Dict.put name failing w.runtimes }, warning ∷ [])

  -- whether a result makes `_recover` start a docker binary that cannot be started
  abbrev pub raises :
      RecoveryWatcher Float → ServiceRuntime Float → HealthResult → (String → Attempt Float) → Bool
  raises w runtime result attempt =
      not result.ok
      && leb_ℤ w.config.failure_threshold (pos (runtime.consecutive_failures + 1))
      && not (attempt runtime.target.container).launched

  -- the loop of `_tick`
  unfoldable pub react_all :
      RecoveryWatcher Float
      → List HealthResult
      → (String → Attempt Float)
      → Result WatchError (RecoveryWatcher Float × List (Action Float))
  react_all w [] attempt = ok (w, [])
  react_all w (result ∷ results) attempt = elim (Dict.get result.target.name w.runtimes) [
    | none ↦ err (key_error result.target.name)
    | some runtime ↦
        let first = react w runtime result attempt in
        let later = react_all first.0 results attempt in
        if raises w runtime result attempt
        then err (file_not_found_error w.config.docker_bin)
        else do rest ← later; ok (rest.0, first.1 ++ rest.1)
  ]

  module _ {J : Type 0} (hx : Httpx) where
    -- `_tick`
    unfoldable pub tick :
        RecoveryWatcher Float
        → Poll J Float
        → Result WatchError (RecoveryWatcher Float × List (Action Float))
    tick w poll = react_all w (probe_all hx w.targets poll.get) poll.attempt

    -- `run`, as far as the given cycles reach; the last component says whether the loop has ended
    unfoldable pub run :
        RecoveryWatcher Float
        → List (Poll J Float)
        → Result WatchError (RecoveryWatcher Float × List (Action Float) × Bool)
    run w [] = ok (w, [], w.stop)
    run w (poll ∷ polls) = elim w.stop [
      | true ↦ ok (w, [], true)
      | false ↦ do
        (w', actions) ← tick w poll
        (w'', more, ended) ← run (if poll.stop_requested then request_stop w' else w') polls
        ok (w'', actions ++ more, ended)
    ]
