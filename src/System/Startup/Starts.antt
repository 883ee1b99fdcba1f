-- ===== src/System/Startup/Starts.antt =====
-- The modules services/*/app/main.py: the environments in which each of them starts.
use cloud_microservices.Prelude.{
  String, ◌≡◌, refl, ap, ◌∙◌, inl, inr, Bool, true, false, not, ◌&&◌, none, some, arith, is_empty,
  Result, ok, err, ◌>>=◌, is_ok, Bool-cases, Option-cases,
}
use cloud_microservices.Prelude.Dict.{is_some}
use cloud_microservices.Floats.{Floats}
use cloud_microservices.Shared.Env.{Env, env_str}
use cloud_microservices.Shared.Logging.Levels.{can_log, configure_logging-can_log}
use cloud_microservices.Shared.App.{create_service_app}
use cloud_microservices.ServiceA.Config as Worker
use cloud_microservices.Gateway.Config as Gate
use cloud_microservices.System.Startup.{
  StartError, getenv_or, lift_docker, application, start_service_a, start_gateway, start_service_b,
  start_fault_injector,
}

-- whether SERVICE_NAME is unset or not empty
abbrev pub has_name : Env → Bool
has_name env = elim (env "SERVICE_NAME") [ none ↦ true | some name ↦ not (is_empty name) ]

env_str-not_empty :
    (env : Env) (name default : String)
    → is_empty default ≡ false
    → is_empty (env_str env name default) ≡ false
unfolding env_str
env_str-not_empty env name default h = ground arith

module _ (fl : Floats) {J : Type 0} (text : String → J) where
  open fl use {Float}

  application-is_ok :
      (env : Env) (name : String) (now : Float)
      → is_ok (application fl text env name now) ≡ (not (is_empty name) && can_log env)
  unfolding create_service_app
  application-is_ok env name now = elim (Bool-cases (is_empty name)) [
    | inl unnamed ↦ rw unnamed refl
    | inr named ↦ elim (configure_logging-can_log text env name named) [
      | inl (can, logger, e) ↦ rw (named, can, e) refl
      | inr (cannot, e) ↦ rw (named, cannot, e) refl
    ]
  ]

  is_ok-bind : {E A B : Type 0} (r : Result E A) (f : A → B) → is_ok (r >>= λ a. ok (f a)) ≡ is_ok r
  is_ok-bind (ok a) f = refl
  is_ok-bind (err e) f = refl

  named : Env → String → Bool
  named env default = not (is_empty (getenv_or env "SERVICE_NAME" default))

  named-has_name :
      (env : Env) (default : String) → is_empty default ≡ false → named env default ≡ has_name env
  unfolding named
  named-has_name env default h = ground arith

  application-env_str :
      (env : Env) (default : String) (now : Float)
      → is_empty default ≡ false
      → is_ok (application fl text env (env_str env "SERVICE_NAME" default) now) ≡ can_log env
  application-env_str env default now h =
      application-is_ok env (env_str env "SERVICE_NAME" default) now
      ∙ ap (λ b. not b && can_log env) (env_str-not_empty env "SERVICE_NAME" default h)

  application-getenv_or :
      (env : Env) (default : String) (now : Float)
      → is_empty default ≡ false
      → is_ok (application fl text env (getenv_or env "SERVICE_NAME" default) now)
        ≡ (has_name env && can_log env)
  unfolding named
  application-getenv_or env default now h =
      application-is_ok env (getenv_or env "SERVICE_NAME" default) now
      ∙ ap (λ b. b && can_log env) (named-has_name env default h)

  service_a-is_ok :
      (env : Env) (now : Float) → is_ok (start_service_a fl text env now) ≡ can_log env
  unfolding start_service_a Worker.load_settings
  service_a-is_ok env now =
      is_ok-bind (application fl text env (env_str env "SERVICE_NAME" "service-a") now)
        (λ app. (app, Worker.load_settings env))
      ∙ application-env_str env "service-a" now refl

  gateway-is_ok :
      (env : Env) (now : Float)
      → is_ok (start_gateway fl text env now)
        ≡ (is_some (fl.parse (env_str env "REQUEST_TIMEOUT_SECONDS" "10")) && can_log env)
  unfolding start_gateway Gate.load_settings
  gateway-is_ok env now =
      elim (Option-cases (fl.parse (env_str env "REQUEST_TIMEOUT_SECONDS" "10"))) [
        | inl e ↦ ground (arith, e)
        | inr (timeout, e) ↦
            let starts = application-env_str env "api-gateway" now refl in ground (arith, e, starts)
      ]

  service_b-is_ok :
      (env : Env) (now : Float)
      → is_ok (start_service_b fl text env now) ≡ (has_name env && can_log env)
  unfolding start_service_b
  service_b-is_ok env now =
      is_ok-bind (application fl text env (getenv_or env "SERVICE_NAME" "service-b") now) _
      ∙ application-getenv_or env "service-b" now refl

  fault_injector-is_ok :
      (env : Env) (from_env : Result String (Unit {0})) (now : Float)
      → is_ok (start_fault_injector fl text env from_env now)
        ≡ (has_name env && can_log env && is_ok from_env)
  unfolding start_fault_injector
  fault_injector-is_ok env from_env now =
      both (application fl text env (getenv_or env "SERVICE_NAME" "fault-injector") now) from_env _
      ∙ ap (λ b. b && is_ok from_env) (application-getenv_or env "fault-injector" now refl)
      ∙ and_assoc (has_name env) (can_log env) (is_ok from_env)
    where
      and_assoc : (a b c : Bool) → ((a && b) && c) ≡ (a && b && c)
      and_assoc true b c = refl
      and_assoc false b c = refl

      both :
          {A B : Type 0} (r : Result StartError A) (client : Result String (Unit {0})) (f : A → B)
          → is_ok (r >>= λ a. lift_docker client >>= λ c. ok (f a)) ≡ (is_ok r && is_ok client)
      both (ok a) (ok c) f = refl
      both (ok a) (err e) f = refl
      both (err e) client f = refl

  -- In any environment: service-a starts exactly when the logging can be set up; api-gateway when besides
  -- the timeout is a number; service-b and the fault injector, which read SERVICE_NAME without a default for an empty
  -- value, when besides that is not set to an empty text; and the fault injector only with a docker client.
  pub starts_in :
      (env : Env) (from_env : Result String (Unit {0})) (now : Float)
      → (is_ok (start_service_a fl text env now) ≡ can_log env)
        × (is_ok (start_gateway fl text env now)
            ≡ (is_some (fl.parse (env_str env "REQUEST_TIMEOUT_SECONDS" "10")) && can_log env))
        × (is_ok (start_service_b fl text env now) ≡ (has_name env && can_log env))
        × (is_ok (start_fault_injector fl text env from_env now)
            ≡ (has_name env && can_log env && is_ok from_env))
  starts_in env from_env now = (
    service_a-is_ok env now,
    gateway-is_ok env now,
    service_b-is_ok env now,
    fault_injector-is_ok env from_env now,
  )
