-- ===== src/Shared/App/Traffic.antt =====
-- shared/fastapi_app.py: a service with several requests at a time. Each request runs in a task of its own,
-- with its own logging context, up to `call_next` and, when that ends, from there on; the counters and
-- the log are the service's.
pub mod Accounts
use cloud_microservices.Prelude.{ℕ, ◌≡◌, Option, none, some, List, [], ◌∷◌, ◌++◌, get_elem?, set}
use cloud_microservices.Floats.{Floats}
use cloud_microservices.Shared.Metrics.{MetricsState}
use cloud_microservices.Shared.App.{
  Outcome, Request, LogLine, ServiceApp, bind_request_context, leave,
}

-- The request of a task, in `call_next`, or behind it, when it has left the middleware: how its route has ended, and the
-- logging context that its task has been left with
pub data Task (B : Type 0) : Type 0 where
  waiting : Request → Option Request → Task B
  left : Request → Outcome B → Option Request → Task B

pub record Service (F B : Type 0) : Type 0 where
  pub metrics : MetricsState F
  pub min_level : ℕ
  pub logs : List (LogLine F)
  pub tasks : List (Task B)

module _ (fl : Floats) {B : Type 0} (server_error : B) where
  open fl use {Float}

  -- the middleware as one task sees it
  abbrev pub in_task : Option Request → Service Float B → ServiceApp Float
  in_task context s = record {
    metrics = s.metrics;
    context = context;
    min_level = s.min_level;
    logs = s.logs;
  }

  -- a request comes in: its task binds the context and waits for the route
  unfoldable pub arrive : Request → Service Float B → Service Float B
  unfolding bind_request_context
  arrive request s =
      let app = bind_request_context fl request (in_task none s) in
      record s {
        metrics = app.metrics;
        logs = app.logs;
        tasks = s.tasks ++ waiting request app.context ∷ [];
      }

  -- the route of task `i` ends, and the task leaves the middleware
  unfoldable pub depart :
      ℕ → Request → Option Request → Outcome B → Float → Service Float B → Service Float B
  unfolding leave
  depart i request context outcome duration_ms s =
      let app = (leave fl server_error outcome duration_ms (in_task context s)).1 in
      record s {
        metrics = app.metrics;
        logs = app.logs;
        tasks = set s.tasks i (left request outcome app.context);
      }

  pub data Step : Service Float B → Service Float B → Type 0 where
    arrival : {s : Service Float B} (request : Request) → Step s (arrive request s)
    departure :
        {s : Service Float B} (i : ℕ) (request : Request) (context : Option Request)
        (outcome : Outcome B) (duration_ms : Float)
        → get_elem? s.tasks i ≡ some (waiting request context)
        → Step s (depart i request context outcome duration_ms s)

  -- what a service can come to, from a state on
  pub data Reach (s : Service Float B) : Service Float B → Type 0 where
    here : Reach s s
    next : {t u : Service Float B} → Reach s t → Step t u → Reach s u
