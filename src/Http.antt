-- ===== src/Http.antt =====
-- The parts of httpx that the programs rely on. What a request meets is an argument of the model.
use cloud_microservices.Prelude.{ℕ, String, ◌≡◌, Bool, true, Option, Result, ok, err, if◌then◌else◌}

-- an `httpx.Response`; `json` has no value where the body does not parse
pub record Response (J : Type 0) : Type 0 where
  pub status_code : ℕ
  pub text : String
  pub json : Option J

-- What one request meets: a response, or a transport failure (refused, timed out, …).
pub data Exchange (J : Type 0) : Type 0 where
  answered : Response J → Exchange J
  failed : String → Exchange J

-- `httpx.HTTPError`: `HTTPStatusError` of `raise_for_status`, or a transport failure
pub data HttpError : Type 0 where
  status_error : ℕ → String → HttpError
  transport_error : String → HttpError

-- `is_success` says for which status codes `raise_for_status` does not raise; `describe` is `str(exc)`.
pub record Httpx : Type 0 where
  pub is_success : ℕ → Bool
  pub describe : HttpError → String

-- `response = await client.get(…)` or `client.post(…)`, then `response.raise_for_status()`
unfoldable pub checked : {J : Type 0} → Httpx → Exchange J → Result HttpError (Response J)
checked hx (answered r) =
    if hx.is_success r.status_code then ok r else err (status_error r.status_code r.text)
checked hx (failed message) = err (transport_error message)

-- the answer that `checked` lets through
abbrev pub IsAnswer : {J : Type 0} → Httpx → Exchange J → Response J → Type 0
IsAnswer hx x r = (x ≡ answered r) × (hx.is_success r.status_code ≡ true)
