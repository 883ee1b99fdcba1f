-- ===== src/Orchestration/Targets.antt =====
-- orchestration/__init__.py: the services that are watched, and where their health is read.
use Prim.Native.String
use cloud_microservices.Prelude.{String, ℤ, pos, List, [], ◌∷◌, str_ℤ}
use cloud_microservices.Shared.Env.{Env, env_int, env_str}

pub record ServiceTarget : Type 0 where
  pub name : String
  pub container : String
  pub health_url : String

-- `_url`, with its default path written at each call
unfoldable pub url : ℤ → String → String
url host_port path = String.◌++◌ "http://127.0.0.1:" (String.◌++◌ (str_ℤ host_port) path)

unfoldable pub default_targets : Env → List ServiceTarget
default_targets env =
    record {
      name = "api-gateway";
      container = "cm-api-gateway";
      health_url = url (env_int env "API_GATEWAY_PORT" (pos 8000)) "/health";
    }
    ∷ record {
      name = "service-a";
      container = "cm-service-a";
      health_url = url (env_int env "SERVICE_A_PORT" (pos 8001)) "/health";
    }
    ∷ record {
      name = "service-b";
      container = "cm-service-b";
      health_url = url (env_int env "SERVICE_B_PORT" (pos 8002)) "/health";
    }
    ∷ record {
      name = "cpp-worker";
      container = "cm-cpp-worker";
      health_url = url (env_int env "CPP_WORKER_PORT" (pos 8003)) "/health";
    }
    ∷ record {
      name = "fault-injector";
      container = "cm-fault-injector";
      health_url = url (env_int env "FAULT_INJECTOR_PORT" (pos 8004)) "/health";
    }
    ∷ []

unfoldable pub compose_project_name : Env → String
compose_project_name env = env_str env "COMPOSE_PROJECT_NAME" "cloud-microservices"
