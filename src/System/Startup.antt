-- ===== src/System/Startup.antt =====
-- The modules services/*/app/main.py as uvicorn imports them: each reads its settings and makes its application, its
-- logger and its state, or raises. The clients that `_lifespan` opens are left out.
pub mod Starts
use cloud_microservices.Prelude.{String, Option, none, some, Result, ok, err, ◌>>=◌}
use cloud_microservices.Floats.{Floats}
use cloud_microservices.Shared.Env.{Env, or_default}
use cloud_microservices.Shared.Logging.{Logger}
use cloud_microservices.Shared.App.{ServiceApp, AppError, create_service_app}
use cloud_microservices.ServiceA.Config as Worker
use cloud_microservices.Gateway.Config as Gate
use cloud_microservices.ServiceB.Storage.{KeyValueStore, new_store}
use cloud_microservices.FaultInjector.Injector.{FaultState, new_state}

pub data StartError : Type 0 where
  app_error : AppError → StartError
  -- of `float(env_str("REQUEST_TIMEOUT_SECONDS", "10"))`
  value_error : StartError
  -- of `docker.from_env()`
  docker_exception : String → StartError

abbrev pub lift_app : {A : Type 0} → Result AppError A → Result StartError A
lift_app (ok a) = ok a
lift_app (err e) = err (app_error e)

abbrev pub lift_docker : {A : Type 0} → Result String A → Result StartError A
lift_docker (ok a) = ok a
lift_docker (err message) = err (docker_exception message)

-- `os.getenv(name, default)`
abbrev pub getenv_or : Env → String → String → String
getenv_or env name default = or_default default (env name)

module _ (fl : Floats) {J : Type 0} (text : String → J) where
  open fl use {Float}

  -- the application under a name, and its logger
  abbrev application : Env → String → Float → Result StartError (ServiceApp Float × Logger J)
  application env name now = lift_app (create_service_app fl text env name now)

  -- services/service-a/app/main.py
  unfoldable pub start_service_a :
      Env → Float → Result StartError ((ServiceApp Float × Logger J) × Worker.Settings)
  start_service_a env now = do
    let settings = Worker.load_settings env
    app ← application env settings.service_name now
    ok (app, settings)

  -- services/api-gateway/app/main.py
  unfoldable pub start_gateway :
      Env → Float → Result StartError ((ServiceApp Float × Logger J) × Gate.Settings Float)
  start_gateway env now = elim (Gate.load_settings fl env) [
    | none ↦ err value_error
    | some settings ↦ do app ← application env settings.service_name now; ok (app, settings)
  ]

  -- services/service-b/app/main.py
  unfoldable pub start_service_b :
      Env → Float → Result StartError ((ServiceApp Float × Logger J) × KeyValueStore Float)
  start_service_b env now = do
    app ← application env (getenv_or env "SERVICE_NAME" "service-b") now
    ok (app, new_store)

  -- services/fault-injector/app/main.py; `from_env` is what `docker.from_env()` does
  unfoldable pub start_fault_injector :
      Env
      → Result String (Unit {0})
      → Float
      → Result StartError ((ServiceApp Float × Logger J) × FaultState Float)
  start_fault_injector env from_env now = do
    app ← application env (getenv_or env "SERVICE_NAME" "fault-injector") now
    let state = new_state fl
    client ← lift_docker from_env
    ok (app, state)
