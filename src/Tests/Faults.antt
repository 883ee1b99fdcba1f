-- ===== src/Tests/Faults.antt =====
-- The fault injector, the gateway, the store and the monitoring at concrete inputs.
use cloud_microservices.Prelude.{
  ℕ, String, ◌≡◌, refl, ◌⊎◌, true, false, Option, none, some, List, [], ◌∷◌, ok, err, All, length,
  pos, all, any, ◌==◌, if◌then◌else◌,
}
use cloud_microservices.Http.{Exchange}
use cloud_microservices.Shared.Models.{
  FaultRequest, FaultResponse, StoreRecord, ProcessRequest, ProcessResponse, http_exception,
  unhandled, fault_request,
}
use cloud_microservices.FaultInjector.Injector.{Docker, FaultState}
use cloud_microservices.FaultInjector.Main.{
  normalise_target, Moment, Request, inject_kill, inject_latency, slow, fault_response, serve,
  serve_all,
}
use cloud_microservices.FaultInjector.Main.Safety.{
  is_listed, IsAllowed, IsInRange, serve_all-IsAllowed, serve_all-IsInRange,
}
use cloud_microservices.FaultInjector.Main.Kill.{FailsOtherwise, inject_kill_lem}
use cloud_microservices.Gateway.Config
use cloud_microservices.Gateway.Health.{
  SystemHealth, targets, system_health, is_up, is_garbled, urls_of, system_health_lem,
}
use cloud_microservices.ServiceB.Storage.{KeyValueStore, Call, put_call, size_call, new_store}
use cloud_microservices.ServiceB.Storage
use cloud_microservices.ServiceB.Storage.Laws.{
  Represents, AllAnswer, spec_run, empty_map, new_store-Represents, perform_all_refines,
}
use cloud_microservices.ServiceB.Main.{put_record, get_record, delete_record}
use cloud_microservices.ServiceB.Main.RoundTrips.{put_get_delete}
use cloud_microservices.Tests.Data.{naturals, httpx, unreachable, answering}

-- a docker that does all that it is asked to
abbrev docker : Docker
docker = record { find = λ t. ok "running"; stop = λ t n. ok tt; start = λ t. ok tt }

abbrev moment : Moment
moment = record { docker = docker; utcnow = 7 }

abbrev fault : FaultRequest ℕ
fault = record { target = "service-a"; duration_ms = pos 250; error_rate = 0 }

abbrev calm : FaultState ℕ
calm = record { latency_ms = pos 0; error_rate = 0 }

abbrev chaos : List (Moment × Request ℕ)
chaos = (moment, inject_kill fault) ∷ (moment, inject_latency fault) ∷ (moment, slow) ∷ []

serve_all-IsAllowed_example : All IsAllowed (serve_all naturals chaos calm).1
serve_all-IsAllowed_example = serve_all-IsAllowed naturals chaos calm

serve_all-IsInRange_example : IsInRange naturals (serve_all naturals chaos calm).0
unfolding fault_request
serve_all-IsInRange_example =
    serve_all-IsInRange naturals chaos calm (refl, (refl, (tt, tt))) (refl, refl, refl, refl)

inject_kill_lem_example :
    ((is_listed "cm-service-a" ≡ false)
      × (serve naturals moment (inject_kill fault) calm
          ≡ (err (http_exception 403 "not in allow-list"), calm, [])))
    ⊎ ((is_listed "cm-service-a" ≡ true)
        × (((message : String) × FailsOtherwise docker "cm-service-a" message
              × ((serve naturals moment (inject_kill fault) calm).0 ≡ err (unhandled message)))
            ⊎ ((resp : FaultResponse) × ((serve naturals moment (inject_kill fault) calm).0
                  ≡ ok (fault_response resp))
                × (resp.target ≡ "cm-service-a")
                × (resp.accepted ≡ true))))
unfolding normalise_target
inject_kill_lem_example = inject_kill_lem naturals moment fault calm

abbrev settings : Config.Settings ℕ
settings = record {
  service_name = "api-gateway";
  service_port = pos 8000;
  service_a_url = "a";
  service_b_url = "b";
  cpp_worker_url = "c";
  request_timeout_seconds = 30;
}

abbrev request : ProcessRequest ℕ
request = record { items = 2 ∷ []; operation = "sum" }

abbrev response : ProcessResponse ℕ
response = record {
  operation = "sum";
  result = 4;
  items_processed = 1;
  fanout_results = 4 ∷ [];
  cpp_result = none;
  duration_ms = 8;
}

abbrev validate : ℕ → Option (ProcessResponse ℕ)
validate n = some response

abbrev post : String → ProcessRequest ℕ → Exchange ℕ
post url req = answering 4

abbrev flavour : String
flavour = "queue"

-- the services answer, but for service-b
abbrev pulses : String → Exchange ℕ
pulses url = if url == "b/health" then unreachable else answering 1

system_health_lem_example :
    ((any (is_garbled httpx settings pulses) (targets httpx settings pulses) ≡ true)
      × (system_health httpx settings pulses ≡ err (unhandled "JSONDecodeError")))
    ⊎ ((any (is_garbled httpx settings pulses) (targets httpx settings pulses) ≡ false)
        × ((health : SystemHealth ℕ) × (system_health httpx settings pulses ≡ ok health)
            × (urls_of httpx settings pulses health.services ≡ targets httpx settings pulses)
            × (health.ok ≡ all (is_up httpx settings pulses) (targets httpx settings pulses))))
system_health_lem_example = system_health_lem httpx settings pulses

abbrev stored : StoreRecord ℕ
stored = record { key = "k"; value = 3 }

abbrev others : List (Call ℕ)
others = put_call "j" 1 ∷ size_call ∷ []

put_get_delete_example :
    ((put_record stored others new_store).0
      ≡ ok (record {
        key = "k";
        value = 3;
        size = length (put_record stored others new_store).1.entries;
      }))
    × (get_record "k" (put_record stored others new_store).1 ≡ ok (record { key = "k"; value = 3 }))
    × ((delete_record "k" (put_record stored others new_store).1).0.deleted ≡ true)
    × (get_record "k" (delete_record "k" (put_record stored others new_store).1).1
        ≡ err (http_exception 404 "not found"))
put_get_delete_example = put_get_delete stored others new_store refl (refl, (tt, tt))

perform_all_refines_example :
    AllAnswer others empty_map (Storage.perform_all others new_store).0
    × Represents (Storage.perform_all others new_store).1 (spec_run others empty_map)
perform_all_refines_example = perform_all_refines others new_store empty_map new_store-Represents
