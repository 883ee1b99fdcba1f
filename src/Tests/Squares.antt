-- ===== src/Tests/Squares.antt =====
-- service-a in front of service-b at concrete inputs.
use cloud_microservices.Prelude.{
  ℕ, String, ◌≡◌, refl, Option, none, some, List, [], ◌∷◌, map, pos, Result, ok,
}
use cloud_microservices.Prelude.Dict
use cloud_microservices.Prelude.Dict.{Dict}
use cloud_microservices.Http.{Exchange, checked}
use cloud_microservices.Shared.Metrics.{new_metrics}
use cloud_microservices.Shared.Models.{StoreRecord, ProcessRequest, ProcessResponse}
use cloud_microservices.Shared.App.{ServiceApp, middleware}
use cloud_microservices.Shared.Retry.{retry_async, retry_from}
use cloud_microservices.ServiceA.Calls.{CallError, call_result}
use cloud_microservices.ServiceA.FanOut
use cloud_microservices.ServiceA.Queue
use cloud_microservices.ServiceA.Main.{
  process, process_via_queue, process_via_threadpool, aggregate, cpp_result_of,
}
use cloud_microservices.System.Squares.Agree.{IsSameAnswer, queued_payloads, flavours_agree}
use cloud_microservices.ServiceB.Main.{Squared, squared}
use cloud_microservices.System.Squares.{Bodies, payloads, call_service_b, process_squares}
use cloud_microservices.Tests.Data.{naturals, httpx, unreachable}

data Body : Type 0 where
  square_body : Squared ℕ → Body
  text_body : String → Body

abbrev numbers_of : Body → Option (Dict ℕ)
numbers_of (square_body s) = some (("input", s.input) ∷ ("result", s.result) ∷ [])
numbers_of (text_body s) = none

abbrev bodies : Bodies ℕ Body
bodies = record {
  squares = square_body;
  detail = text_body;
  internal_error = text_body "internal error";
  text = λ b. "text";
  numbers = numbers_of;
}

abbrev app : ServiceApp ℕ
app = record {
  metrics = new_metrics naturals "service-b" 0;
  context = none;
  min_level = 20;
  logs = [];
}

abbrev payload : String → ℕ → StoreRecord ℕ
payload key value = record { key = key; value = value }

-- each attempt's exchanges with service-b, and one schedule of two permits for both calls
abbrev exchanges : ℕ → List (Exchange (Dict ℕ))
exchanges n =
    call_service_b naturals bodies 1 app (payload "item-0" 2)
    ∷ call_service_b naturals bodies 1 app (payload "item-1" 3)
    ∷ []

abbrev gathered : ℕ → Result CallError (List ℕ)
gathered n = ok (4 ∷ 9 ∷ [])

abbrev flights : List FanOut.Move
flights = FanOut.acquire 0 ∷ FanOut.acquire 1 ∷ FanOut.complete 1 ∷ FanOut.complete 0 ∷ []

abbrev landed : FanOut.FanOut CallError ℕ
landed = record {
  permits = 2;
  tasks =
      record { meets = ok 4; status = FanOut.finished }
      ∷ record { meets = ok 9; status = FanOut.finished }
      ∷ [];
  outcome = some (ok (4 ∷ 9 ∷ []));
}

abbrev request : ProcessRequest ℕ
request = record { items = 2 ∷ 3 ∷ []; operation = "square_sum" }

abbrev response : ProcessResponse ℕ
response = record {
  operation = "square_sum";
  result = 13;
  items_processed = 2;
  fanout_results = 4 ∷ 9 ∷ [];
  cpp_result = none;
  duration_ms = 8;
}

process_squares_example :
    (map some response.fanout_results ≡ map (λ v. naturals.pow v 2) request.items)
    × (aggregate naturals request.operation response.fanout_results ≡ ok response.result)
unfolding process aggregate cpp_result_of call_result retry_async retry_from checked Dict.get
    FanOut.run FanOut.step FanOut.start FanOut.collect payloads call_service_b middleware squared
process_squares_example =
    process_squares naturals bodies httpx request (pos 2) exchanges gathered (λ n. 0) unreachable 8
      response
      (record {
        refusal = refl;
        result = λ s. (("input", s.input) ∷ ("result", s.result) ∷ [], refl, refl);
      })
      (λ n. ((λ r a. (1, app, refl)), ((λ r a. (1, app, refl)), tt)))
      (λ n. (flights, landed, refl, refl)) refl

-- the same request through the queue, on two workers, and through the thread pool
abbrev queue_exchanges : List (Exchange (Dict ℕ))
queue_exchanges =
    call_service_b naturals bodies 1 app (payload "queued" 2)
    ∷ call_service_b naturals bodies 1 app (payload "queued" 3)
    ∷ []

abbrev worked : List Queue.Move
worked = Queue.take_item 0 ∷ Queue.take_item 1 ∷ Queue.end_item 1 ∷ Queue.end_item 0 ∷ []

abbrev emptied : Queue.Pipeline CallError ℕ
emptied = record {
  queue = [];
  workers = none ∷ none ∷ [];
  results = some 4 ∷ some 9 ∷ [];
  failures = [];
  unfinished = 0;
}

abbrev pooled : ProcessResponse ℕ
pooled = record response { duration_ms = 5 }

flavours_agree_example :
    IsSameAnswer naturals response pooled × IsSameAnswer naturals response pooled
unfolding process process_via_queue process_via_threadpool aggregate cpp_result_of call_result
    retry_async retry_from checked Dict.get FanOut.run FanOut.step FanOut.start FanOut.collect
    Queue.run Queue.step Queue.start payloads queued_payloads call_service_b middleware squared
    Queue.answer
flavours_agree_example =
    flavours_agree naturals bodies httpx request (pos 2) (pos 2) exchanges gathered (λ n. 0)
      unreachable queue_exchanges (ok (4 ∷ 9 ∷ [])) 8 5 5 response pooled pooled
      (record {
        refusal = refl;
        result = λ s. (("input", s.input) ∷ ("result", s.result) ∷ [], refl, refl);
      })
      (λ n. ((λ r a. (1, app, refl)), ((λ r a. (1, app, refl)), tt)))
      (λ n. (flights, landed, refl, refl)) ((λ r a. (1, app, refl)), ((λ r a. (1, app, refl)), tt))
      (worked, emptied, refl, refl) (refl, (refl, tt)) refl refl refl
