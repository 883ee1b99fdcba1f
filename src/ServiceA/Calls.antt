-- ===== src/ServiceA/Calls.antt =====
-- services/service-a/app/worker.py: one call of service-b or of cpp-worker, from the exchange with the
-- service to the number in the answer. The body of an answer is an object whose values are numbers.
use cloud_microservices.Prelude.{String, none, some, Result, ok, err, ◌>>=◌}
use cloud_microservices.Prelude.Dict
use cloud_microservices.Prelude.Dict.{Dict}
use cloud_microservices.Http.{Response, Exchange, HttpError, Httpx, checked}

-- How a call fails: `httpx.HTTPError`, a body that is no JSON, or one without the key.
pub data CallError : Type 0 where
  http_error : HttpError → CallError
  json_error : CallError
  key_error : String → CallError

abbrev lift_http : {A : Type 0} → Result HttpError A → Result CallError A
lift_http (ok a) = ok a
lift_http (err e) = err (http_error e)

module _ {F : Type 0} where
  -- `response.json()`
  abbrev parsed : Response (Dict F) → Result CallError (Dict F)
  parsed response = elim response.json [ none ↦ err json_error | some body ↦ ok body ]

  -- `float(data["result"])`
  abbrev result_of : Dict F → Result CallError F
  result_of body = elim (Dict.get "result" body) [
    | none ↦ err (key_error "result")
    | some value ↦ ok value
  ]

  -- the body of `_one`, of `_square_one` and of `call_cpp_worker_square_sum`
  unfoldable pub call_result : Httpx → Exchange (Dict F) → Result CallError F
  call_result hx exchange = do
    response ← lift_http (checked hx exchange)
    body ← parsed response
    result_of body
