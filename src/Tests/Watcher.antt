-- ===== src/Tests/Watcher.antt =====
-- orchestration: the watcher, the health check and the orchestrator at concrete inputs.
use cloud_microservices.Prelude.{
  eq_iff, ℕ, ◌+◌, ◌*◌, ◌<◌, String, ◌≡◌, refl, Bool, true, false, some, List, [], ◌∷◌, ok, err, ◌⊎◌,
  length, pos, arith,
}
use cloud_microservices.Prelude.Dict
use cloud_microservices.Http.{checked}
use cloud_microservices.Orchestration.Targets.{ServiceTarget}
use cloud_microservices.Orchestration.Recovery.{
  WatcherConfig, ServiceRuntime, RecoveryWatcher, Action, Attempt, Poll, file_not_found_error,
  docker_start_ok, init, run,
}
use cloud_microservices.Orchestration.Recovery.Invariant.{IsWatching}
use cloud_microservices.Orchestration.Recovery.Start.{init-IsWatching}
use cloud_microservices.Orchestration.Recovery.Runs.{
  IsOver, SometimesHasNoDocker, run-IsWatching, run-request_stop,
}
use cloud_microservices.Orchestration.Recovery.Counting.{occurs}
use cloud_microservices.Orchestration.Recovery.Restarts.{IsDown, restarts_of_down_service}
use cloud_microservices.Orchestration.Recovery.Loop.{Running, Cycle, watch_over}
use cloud_microservices.Orchestration.Recovery.Loop.Healing.{watch_over_heals}
use cloud_microservices.Orchestration.Recovery.Quiet.{IsAlone, is_started, run_healthy}
use cloud_microservices.Tests.Data.{naturals, httpx, unreachable, answering}

abbrev service : ServiceTarget
service = record { name = "service-a"; container = "cm-service-a"; health_url = "a/health" }

abbrev config : WatcherConfig ℕ
config = record {
  poll_interval_seconds = 5;
  failure_threshold = pos 2;
  recovery_backoff_seconds = 2;
  docker_bin = "docker";
}

abbrev start_works : String → Attempt ℕ
start_works container = record {
  launched = true;
  detected = 10;
  recovered = 20;
  duration = 1;
  returncode = pos 0;
}

abbrev down : Poll ℕ ℕ
down = record { get = λ url. unreachable; attempt = start_works; stop_requested = false }

abbrev up : Poll ℕ ℕ
up = record { get = λ url. answering 0; attempt = start_works; stop_requested = false }

abbrev last : Poll ℕ ℕ
last = record { get = λ url. unreachable; attempt = start_works; stop_requested = true }

abbrev fresh : ServiceRuntime ℕ
fresh = record { target = service; consecutive_failures = 0; history = [] }

abbrev is_down : IsDown naturals httpx "service-a" (service ∷ []) down
unfolding checked
is_down = (refl, ((λ h. refl), tt), (λ c. refl))

restarts_of_down_service_example :
    (out : RecoveryWatcher ℕ × List (Action ℕ) × Bool) × (rt : ServiceRuntime ℕ) × (run naturals
        httpx
        (init (service ∷ []) config)
        (down ∷ down ∷ down ∷ [])
      ≡ ok out)
    × (Dict.get "service-a" out.0.runtimes ≡ some rt)
    × (length rt.history * 2 + rt.consecutive_failures ≡ 3)
    × (rt.consecutive_failures < 2)
unfolding occurs checked
restarts_of_down_service_example =
    restarts_of_down_service naturals httpx (service ∷ []) config "service-a" 1
      (down ∷ down ∷ down ∷ []) refl refl (is_down, (is_down, (is_down, tt)))

run-IsWatching_example :
    ((out : RecoveryWatcher ℕ × List (Action ℕ) × Bool) × (run naturals httpx
          (init (service ∷ []) config)
          (down ∷ last ∷ [])
        ≡ ok out)
      × IsWatching out.0
      × (out.0.targets ≡ (init (service ∷ []) config).targets)
      × (out.0.config ≡ (init (service ∷ []) config).config))
    ⊎ (SometimesHasNoDocker naturals httpx (down ∷ last ∷ [])
        × (run naturals httpx (init (service ∷ []) config) (down ∷ last ∷ [])
            ≡ err (file_not_found_error (init (service ∷ []) config).config.docker_bin)))
run-IsWatching_example =
    run-IsWatching naturals httpx (init (service ∷ []) config) (down ∷ last ∷ [])
      (init-IsWatching (service ∷ []) config)

alone : IsAlone naturals "service-a" "cm-service-a" (init (service ∷ []) config)
unfolding init Dict.get Dict.put
alone k' rt h other = ground (arith, eq_iff "service-a" k', h, other)

run_healthy_example :
    (out : RecoveryWatcher ℕ × List (Action ℕ) × Bool) × (rt' : ServiceRuntime ℕ) × (run naturals
        httpx
        (init (service ∷ []) config)
        (up ∷ up ∷ [])
      ≡ ok out)
    × (Dict.get "service-a" out.0.runtimes ≡ some rt')
    × (rt'.history ≡ [])
    × (is_started naturals "service-a" "cm-service-a" out.1 ≡ false)
unfolding init Dict.get Dict.put checked
run_healthy_example =
    run_healthy naturals "service-a" httpx "cm-service-a" (init (service ∷ []) config) fresh
      (up ∷ up ∷ []) (init-IsWatching (service ∷ []) config) alone refl
      ((((λ h. refl), tt), (λ c. refl)), ((((λ h. refl), tt), (λ c. refl)), tt))

run-request_stop_example :
    (run naturals httpx (init (service ∷ []) config) (down ∷ last ∷ down ∷ [])
      ≡ run naturals httpx (init (service ∷ []) config) (down ∷ last ∷ []))
    × IsOver (run naturals httpx (init (service ∷ []) config) (down ∷ last ∷ down ∷ []))
run-request_stop_example =
    run-request_stop naturals httpx (init (service ∷ []) config) (down ∷ []) last (down ∷ []) refl

abbrev start_cycle : Cycle ℕ ℕ
start_cycle = record {
  meanwhile = λ running. running;
  answers = λ url. answering 0;
  attempt = start_works;
}

watch_over_heals_example :
    (out : RecoveryWatcher ℕ × Running) × (watch_over naturals httpx
        (λ url. "cm-service-a")
        (start_cycle ∷ start_cycle ∷ [])
        (init (service ∷ []) config)
        (λ c. false)
      ≡ ok out)
    × (out.1 "cm-service-a" ≡ true)
unfolding init Dict.get Dict.put occurs docker_start_ok
watch_over_heals_example =
    watch_over_heals naturals httpx (λ url. "cm-service-a") "service-a" "cm-service-a" 1
      (start_cycle ∷ start_cycle ∷ []) (init (service ∷ []) config) fresh (λ c. false)
      (init-IsWatching (service ∷ []) config) refl refl refl (omega arith) ((λ h. refl), tt)
      (refl, (refl, tt)) ((λ c. refl), ((λ c. refl), tt)) ((λ r up. up), ((λ r up. up), tt))
      (omega arith)
