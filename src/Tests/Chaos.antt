-- ===== src/Tests/Chaos.antt =====
-- The fault injector beside the watcher at concrete inputs.
use cloud_microservices.Prelude.{
  ℕ, String, ◌≡◌, refl, true, false, ◌==◌, none, List, [], ◌∷◌, arith, pos, ok, str_ℤ,
  if◌then◌else◌,
}
use cloud_microservices.Shared.Env.{Env, env_int}
use cloud_microservices.Shared.Models.{FaultRequest, FaultResponse, kill}
use cloud_microservices.FaultInjector.Injector.{FaultState}
use cloud_microservices.FaultInjector.Main.{normalise_target, Moment, inject_kill, slow, serve}
use cloud_microservices.Orchestration.Targets.{ServiceTarget, url, default_targets}
use cloud_microservices.Orchestration.Recovery.{
  RecoveryWatcher, Attempt, docker_start_ok, from_env, init,
}
use cloud_microservices.Orchestration.Recovery.Start.{init-IsWatching}
use cloud_microservices.Orchestration.Recovery.Loop.{Running}
use cloud_microservices.System.Chaos.{Round, inject, after_calls, chaos}
use cloud_microservices.System.Chaos.Kills.{kill-heals_of_default}
use cloud_microservices.System.Chaos.Unlisted.{chaos-unlisted}
use cloud_microservices.Tests.Data.{naturals, httpx, answering}

abbrev no_env : Env
no_env name = none

-- the container of the target whose health is read at a URL
abbrev container_at : List ServiceTarget → String → String
container_at [] u = ""
container_at (t ∷ ts) u =
    let rest = container_at ts u in if t.health_url == u then t.container else rest

abbrev behind : String → String
behind = container_at (default_targets no_env)

-- docker does what it is asked
abbrev moment : Moment
moment = record {
  docker = record { find = λ t. ok "running"; stop = λ t timeout. ok tt; start = λ t. ok tt };
  utcnow = 7;
}

abbrev request_for : String → FaultRequest ℕ
request_for target = record { target = target; duration_ms = pos 2000; error_rate = 1 }

abbrev start_works : String → Attempt ℕ
start_works container = record {
  launched = true;
  detected = 10;
  recovered = 20;
  duration = 1;
  returncode = pos 0;
}

-- another container is killed before each cycle
abbrev round : Round ℕ ℕ
round = record {
  requests = (moment, inject_kill (request_for "service-a")) ∷ (moment, slow) ∷ [];
  answers = λ u. answering 0;
  attempt = start_works;
}

abbrev no_faults : FaultState ℕ
no_faults = record { latency_ms = pos 0; error_rate = 0 }

abbrev everything : Running
everything c = true

abbrev accepted : FaultResponse
accepted = record {
  kind = kill;
  target = "cm-service-b";
  accepted = true;
  detail = "stopped";
  timestamp = 7;
}

abbrev rounds : List (Round ℕ ℕ)
rounds = round ∷ round ∷ round ∷ []

kill-heals_of_default_example :
    let (state', calls) =
      inject naturals ((moment, inject_kill (request_for "service-b")) ∷ []) no_faults in
    let running' = after_calls calls everything in
    let w = init (default_targets no_env) (from_env naturals no_env none) in
    (running' (normalise_target "service-b") ≡ false)
    × ((out : RecoveryWatcher ℕ × Running) × (chaos naturals httpx behind rounds state' w running'
          ≡ ok out)
        × (out.1 (normalise_target "service-b") ≡ true))
unfolding default_targets url serve from_env normalise_target docker_start_ok env_int str_ℤ
kill-heals_of_default_example =
    kill-heals_of_default naturals httpx behind no_env none 2 moment (request_for "service-b")
      no_faults everything accepted rounds refl (refl, (refl, (refl, (refl, (refl, tt))))) refl refl
      (refl, (refl, (refl, tt))) ((λ c. refl), ((λ c. refl), ((λ c. refl), tt)))
      ((refl, (refl, tt)), ((refl, (refl, tt)), ((refl, (refl, tt)), tt))) (omega arith)

chaos-unlisted_example :
    let w = init (default_targets no_env) (from_env naturals no_env none) in
    (out : RecoveryWatcher ℕ × Running) × (chaos naturals httpx behind rounds no_faults w everything
      ≡ ok out)
    × (out.1 "cm-fault-injector" ≡ true)
chaos-unlisted_example =
    chaos-unlisted "cm-fault-injector" refl naturals httpx behind rounds no_faults
      (init (default_targets no_env) (from_env naturals no_env none)) everything
      (init-IsWatching (default_targets no_env) (from_env naturals no_env none))
      ((λ c. refl), ((λ c. refl), ((λ c. refl), tt))) refl
