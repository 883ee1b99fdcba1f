-- ===== src/Tests/Client.antt =====
-- api-gateway in front of service-a at concrete inputs.
use cloud_microservices.Prelude.{
  ℕ, ◌+◌, ◌≡◌, refl, String, Option, none, some, [], ◌∷◌, arith, ap, pos, ok,
}
use text.Mathlib.TextLemmas.{nil-append}
use cloud_microservices.Http.{Exchange}
use cloud_microservices.Shared.Models.{ProcessRequest, ProcessResponse}
use cloud_microservices.Shared.Metrics.{new_metrics}
use cloud_microservices.Shared.App.Traffic.{
  Service, arrive, depart, Reach, here, next, arrival, departure,
}
use cloud_microservices.Shared.App.Traffic.Accounts.{IsAccounted, Reach-IsAccounted}
use cloud_microservices.Shared.App.{raised, Request, ServiceApp}
use cloud_microservices.Gateway.Config.{Settings}
use cloud_microservices.System.{Json, Downstream, service_a, call_service_a, call_gateway}
use cloud_microservices.ServiceA.Main.{process, aggregate, cpp_result_of}
use cloud_microservices.Shared.Retry.{retry_async, retry_from}
use cloud_microservices.System.Answers.{IsHonest, IsReached, client_answer}
use cloud_microservices.Tests.Data.{naturals, httpx, unreachable}

data Body : Type 0 where
  response_body : ProcessResponse ℕ → Body
  detail_body : String → Body

abbrev read_body : Body → Option (ProcessResponse ℕ)
read_body (response_body r) = some r
read_body (detail_body s) = none

abbrev text_of : Body → String
text_of (response_body r) = "response"
text_of (detail_body s) = s

abbrev json : Json ℕ Body
json = record {
  dump = λ r. some (response_body r);
  validate = read_body;
  detail = detail_body;
  internal_error = detail_body "internal error";
  text = text_of;
}

-- service-b answers at once, and nobody else
abbrev downstream : Downstream ℕ
downstream = record {
  fan_outs = λ n. ok (4 ∷ []);
  jitter = λ n. 0;
  cpp = unreachable;
  queued = ok (4 ∷ []);
  duration_ms = 1;
}

abbrev app : ServiceApp ℕ
app = record {
  metrics = new_metrics naturals "service" 0;
  context = none;
  min_level = 20;
  logs = [];
}

-- an operation that service-a does not know
abbrev median : ProcessRequest ℕ
median = record { items = 2 ∷ []; operation = "median" }

abbrev settings : Settings ℕ
settings = record {
  service_name = "api-gateway";
  service_port = pos 8000;
  service_a_url = "";
  service_b_url = "b";
  cpp_worker_url = "c";
  request_timeout_seconds = 1;
}

abbrev post : String → ProcessRequest ℕ → Exchange Body
post url req = call_service_a naturals httpx json downstream 1 app url req

honest : IsHonest naturals httpx json settings post downstream
honest = record {
  success = refl;
  refusal = λ code h. ground arith;
  round_trip = λ r body h. ground (arith, h);
}

abbrev reached : IsReached naturals httpx json settings post downstream
reached path req =
    (1, app, ap (λ p. call_service_a naturals httpx json downstream 1 app p req) (nil-append path))

abbrev request : Request
request = record { path = "/process"; method = "POST" }

client_answer_example :
    let (reply, app') = call_gateway naturals httpx json settings post request none median 2 app in
    (errors : ℕ) × (app'.metrics.error_count ≡ app.metrics.error_count + errors)
    × ((reply ≡ ok (record { status_code = 502; body = detail_body "service-a error" }))
        × (errors ≡ 1))
unfolding service_a process aggregate retry_async retry_from cpp_result_of
client_answer_example =
    client_answer naturals httpx json settings post downstream request none median 2 app honest
      reached

abbrev idle : Service ℕ Body
idle = record { metrics = new_metrics naturals "service" 0; min_level = 20; logs = []; tasks = [] }

abbrev server_error : Body
server_error = detail_body "internal error"

-- two requests come in, and the second one is the first to end, by an exception
abbrev both_arrived : Service ℕ Body
both_arrived = arrive naturals server_error request (arrive naturals server_error request idle)

abbrev one_gone : Service ℕ Body
one_gone = depart naturals server_error 1 request (some request) (raised "boom") 8 both_arrived

reached_one_gone : Reach naturals server_error idle one_gone
unfolding arrive
reached_one_gone =
    next (next (next here (arrival request)) (arrival request))
      (departure 1 request (some request) (raised "boom") 8 refl)

Reach-IsAccounted_example : IsAccounted one_gone
unfolding new_metrics
Reach-IsAccounted_example = Reach-IsAccounted naturals server_error reached_one_gone (record {
  counted = refl;
  failures = refl;
  logged = λ q. refl;
  errors = λ q. refl;
  contexts = tt;
  shown = tt;
})
