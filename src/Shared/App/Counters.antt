-- ===== src/Shared/App/Counters.antt =====
-- shared/fastapi_app.py: what the counters of a service say of the requests that it has served.
use cloud_microservices.Prelude.{
  ℕ, ◌+◌, ◌≡◌, refl, sym, ◌∙◌, ◌↔◌, Bool, true, false, none, some, List, [], ◌∷◌, ◌++◌, arith, leb,
  length, if◌then◌else◌, Result, ok, err,
}
use mathlib.Core.List.{append_assoc, append-nil}
use cloud_microservices.Floats.{Floats}
use cloud_microservices.Shared.Metrics.{record_request}
use cloud_microservices.Shared.App.{
  Reply, Outcome, responded, raised, cancelled, Request, ServiceApp, LogLine, unhandled_exception,
  request_completed, written, AppError, unbound_local_error, middleware,
}

-- one request, how the route behind the middleware ends, and the time that it takes
pub record Served (F B : Type 0) : Type 0 where
  pub request : Request
  pub outcome : Outcome B
  pub duration_ms : F

-- A request counts as an error by a status of 500 or more, or by an exception of its route.
abbrev pub is_failure : {B : Type 0} → Outcome B → Bool
is_failure (responded r) = leb 500 r.status_code
is_failure (raised m) = true
is_failure cancelled = false

module _ (fl : Floats) {B : Type 0} (server_error : B) where
  open fl use {Float}

  unfoldable pub serve : List (Served Float B) → ServiceApp Float → ServiceApp Float
  serve [] app = app
  serve (s ∷ ss) app = serve ss (middleware fl server_error s.request s.outcome s.duration_ms app).1

  unfoldable pub failures : List (Served Float B) → ℕ
  failures [] = 0
  failures (s ∷ ss) = (if is_failure s.outcome then 1 else 0) + failures ss

  unfoldable pub latency : Float → List (Served Float B) → Float
  latency total [] = total
  latency total (s ∷ ss) = latency (fl.add total s.duration_ms) ss

  pub middleware_counts :
      (s : Served Float B) (app : ServiceApp Float)
      → let app' = (middleware fl server_error s.request s.outcome s.duration_ms app).1 in
        (app'.metrics.request_count ≡ app.metrics.request_count + 1)
        × (app'.metrics.error_count
            ≡ app.metrics.error_count + (if is_failure s.outcome then 1 else 0))
        × (app'.metrics.total_latency_ms ≡ fl.add app.metrics.total_latency_ms s.duration_ms)
        × (app'.metrics.service ≡ app.metrics.service)
        × (app'.metrics.started_at ≡ app.metrics.started_at)
  unfolding middleware record_request
  middleware_counts s app = ground arith

  -- After any requests, however each ended, the service has counted each once, as an error exactly
  -- when its status was 500 or more or its route raised an exception, and the latencies are summed
  -- in the order of completion.
  pub serve_counts :
      (ss : List (Served Float B)) (app : ServiceApp Float)
      → let app' = serve ss app in
        (app'.metrics.request_count ≡ app.metrics.request_count + length ss)
        × (app'.metrics.error_count ≡ app.metrics.error_count + failures ss)
        × (app'.metrics.total_latency_ms ≡ latency app.metrics.total_latency_ms ss)
  unfolding serve failures latency
  serve_counts [] app = (omega arith, omega arith, refl)
  serve_counts (s ∷ ss) app =
      let (n, e, l, _, _) = middleware_counts s app in
      let app' = (middleware fl server_error s.request s.outcome s.duration_ms app).1 in
      let (n', e', l') = serve_counts ss app' in
      (omega (arith, n, n'), omega (arith, e, e'), rw l at l')

  -- the name of a service stays
  pub serve_service :
      (ss : List (Served Float B)) (app : ServiceApp Float)
      → (serve ss app).metrics.service ≡ app.metrics.service
  unfolding serve
  serve_service [] app = refl
  serve_service (s ∷ ss) app =
      let (_, _, _, same, _) = middleware_counts s app in
      serve_service ss (middleware fl server_error s.request s.outcome s.duration_ms app).1 ∙ same

  -- What a client gets: the response of the route, or 500 where the route raised an exception.
  abbrev pub Gets : Outcome B → Result AppError (Reply B) → Type 0
  Gets (responded r) result = result ≡ ok r
  Gets (raised m) result = result ≡ ok (record { status_code = 500; body = server_error })
  Gets cancelled result = result ≡ err unbound_local_error

  -- The calls of the logger that a request makes, in their order: of a cancelled one there is none.
  abbrev pub lines_of : Served Float B → List (LogLine Float)
  lines_of s = elim s.outcome [
    | responded r ↦
        request_completed (some s.request) r.status_code (fl.round s.duration_ms 2)
          (leb 500 r.status_code)
        ∷ []
    | raised m ↦
        unhandled_exception (some s.request) m
        ∷ request_completed (some s.request) 500 (fl.round s.duration_ms 2) true
        ∷ []
    | cancelled ↦ []
  ]

  -- those that are written under a level
  abbrev pub written_all : ℕ → List (LogLine Float) → List (LogLine Float)
  written_all min_level [] = []
  written_all min_level (line ∷ lines) = written min_level line ++ written_all min_level lines

  -- On every branch the client gets what it should; the log grows by the lines that tell how the request ended, as far
  -- as the level lets them through, and by no other; and the request's context is cleared exactly when there is a
  -- response: a cancelled request ends in `UnboundLocalError`, writes no line and leaves its context bound.
  pub middleware_answers :
      (s : Served Float B) (app : ServiceApp Float)
      → let (result, app') = middleware fl server_error s.request s.outcome s.duration_ms app in
        Gets s.outcome result
        × ((app'.context ≡ none) ↔ ((r : Reply B) × (result ≡ ok r)))
        × (app'.logs ≡ app.logs ++ written_all app.min_level (lines_of s))
  unfolding middleware
  middleware_answers s app = answers s.outcome
    where
      answers :
          (o : Outcome B)
          → let (result, app') = middleware fl server_error s.request o s.duration_ms app in
            Gets o result
            × ((app'.context ≡ none) ↔ ((r : Reply B) × (result ≡ ok r)))
            × (app'.logs
                ≡ app.logs ++ written_all app.min_level (lines_of (record s { outcome = o })))
      answers (responded r) = (refl, (λ _. (r, refl), λ _. refl), simp (append-nil))
      answers (raised m) = (refl, (λ _. (_, refl), λ _. refl), simp (append_assoc, append-nil))
      answers cancelled = (
        refl,
        (λ h. absurd (ground arith), λ h. absurd (ground arith)),
        sym (append-nil app.logs),
      )
