-- ===== src/Tests/Services.antt =====
-- The queue pipeline and the handlers of service-a, the store of service-b, and the middleware.
use cloud_microservices.Prelude.{
  ℕ, ◌*◌, ◌<◌, ◌≤◌, String, ◌≡◌, ◌≢◌, ◌↔◌, refl, none, some, List, [], ◌∷◌, map, ok, err, length,
  pos, Result, leb, if◌then◌else◌,
}
use cloud_microservices.Prelude.Dict.{Dict}
use cloud_microservices.Http.{HttpError, transport_error, checked}
use cloud_microservices.Shared.Models.{ProcessRequest, ProcessResponse, http_exception, unhandled}
use cloud_microservices.Shared.Retry.{raised}
use cloud_microservices.Shared.Retry.Laws.{settle}
use cloud_microservices.Prelude.Dict
use cloud_microservices.ServiceA.Calls.{CallError, http_error, call_result}
use cloud_microservices.ServiceA.Queue
use cloud_microservices.ServiceA.Queue.{take_item, end_item}
use cloud_microservices.ServiceA.Queue.Places.{busy_count}
use cloud_microservices.ServiceA.Queue.Outcome
use cloud_microservices.ServiceA.Queue.Answer.{queue_answer}
use cloud_microservices.ServiceA.Queue.Ends.{queue_ends}
use cloud_microservices.ServiceA.Main.{process, process_via_queue, process_via_threadpool}
use cloud_microservices.ServiceA.Main.Laws.{
  settled, Refused, process-http_exception, without_cpp, process-cpp_unreachable,
}
use cloud_microservices.ServiceA.Main.Flavours.{unsupported_operation}
use cloud_microservices.Tests.Data.{naturals, httpx, unreachable, answering}

-- two items, of which the second one fails, on two workers
abbrev meets : List (Result String ℕ)
meets = ok 4 ∷ err "bad" ∷ []

abbrev worked : List Queue.Move
worked = take_item 0 ∷ take_item 1 ∷ end_item 1 ∷ end_item 0 ∷ []

abbrev emptied : Queue.Pipeline String ℕ
emptied = record {
  queue = [];
  workers = none ∷ none ∷ [];
  results = some 4 ∷ none ∷ [];
  failures = "bad" ∷ [];
  unfinished = 0;
}

queue_answer_example :
    ((vs : List ℕ) → Queue.answer 0 emptied ≡ some (ok vs) → meets ≡ map ok vs)
    × ((e : String) → Queue.answer 0 emptied ≡ some (err e) → Outcome.Raises meets e)
unfolding Queue.run Queue.step Queue.start
queue_answer_example = queue_answer 0 (pos 2) meets worked emptied refl

queue_ends_example :
    (busy_count emptied.workers ≤ 2)
    × (length worked ≤ 2 * length meets)
    × (length worked < 2 * length meets
        → (m : Queue.Move) × (s' : Queue.Pipeline String ℕ) × (Queue.step m emptied ≡ some s'))
    × (length worked ≡ 2 * length meets → Queue.answer 0 emptied ≢ none)
unfolding Queue.run Queue.step Queue.start
queue_ends_example = queue_ends 0 (pos 2) meets worked emptied refl

-- a request whose first fan-out fails and whose second one is answered
abbrev request : ProcessRequest ℕ
request = record { items = 2 ∷ 3 ∷ []; operation = "square_sum" }

abbrev fan_outs : ℕ → Result CallError (List ℕ)
fan_outs n = if leb n 1 then err (http_error (transport_error "refused")) else ok (4 ∷ 9 ∷ [])

abbrev no_jitter : ℕ → ℕ
no_jitter n = 0

abbrev response : ProcessResponse ℕ
response = record {
  operation = "square_sum";
  result = 13;
  items_processed = 2;
  fanout_results = 4 ∷ 9 ∷ [];
  cpp_result = some 13;
  duration_ms = 8;
}

process-cpp_unreachable_example :
    process naturals httpx request fan_outs no_jitter unreachable 8
    ≡ without_cpp
        (process naturals httpx request fan_outs no_jitter (answering (("result", 13) ∷ [])) 8)
unfolding call_result checked Dict.get
process-cpp_unreachable_example =
    process-cpp_unreachable naturals httpx request fan_outs no_jitter unreachable
      (answering (("result", 13) ∷ [])) 8 (transport_error "refused") 13 refl refl

-- an operation that is none of the three
abbrev odd_request : ProcessRequest ℕ
odd_request = record { items = 2 ∷ 3 ∷ []; operation = "median" }

unsupported_operation_example :
    (process naturals httpx odd_request fan_outs no_jitter unreachable 8
      ≡ err (http_exception 400 "unsupported operation"))
    × (process_via_queue naturals odd_request (ok (4 ∷ 9 ∷ [])) 8
        ≡ err (unhandled "unsupported operation"))
    × (process_via_threadpool naturals odd_request 8 ≡ err (unhandled "unsupported operation"))
unfolding settle
unsupported_operation_example =
    unsupported_operation naturals httpx odd_request fan_outs no_jitter unreachable 8 4 2 (9 ∷ [])
      (3 ∷ []) refl refl refl

process-http_exception_example :
    ((process naturals httpx odd_request fan_outs no_jitter unreachable 8
        ≡ err (http_exception 502 "service-b unreachable"))
      ↔ ((e : HttpError) × (settled naturals httpx odd_request fan_outs no_jitter unreachable 8
            ≡ err (raised (http_error e)))))
    × ((message : String)
        → (process naturals httpx odd_request fan_outs no_jitter unreachable 8
            ≡ err (http_exception 400 message))
          ↔ Refused naturals httpx odd_request fan_outs no_jitter unreachable 8 message)
process-http_exception_example =
    process-http_exception naturals httpx odd_request fan_outs no_jitter unreachable 8
