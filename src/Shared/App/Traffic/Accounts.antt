-- ===== src/Shared/App/Traffic/Accounts.antt =====
-- shared/fastapi_app.py: what the counters and the log of a service say of its requests, in any interleaving.
use cloud_microservices.Prelude.{
  ℕ, ◌≡◌, refl, Bool, true, false, ◌&&◌, ◌==◌, ltb, inl, inr, Bool-cases, Option, none, some, [],
  ◌∷◌, ◌++◌, arith, get_elem?, if◌then◌else◌, total, total-set, total-append, leb, All, All-append,
  All-set, All-at,
}
use cloud_microservices.Floats.{Floats}
use cloud_microservices.Shared.Metrics.{record_request}
use cloud_microservices.Shared.App.{
  Outcome, responded, raised, cancelled, Request, LogLine, unhandled_exception, request_completed,
  severity, written,
}
use cloud_microservices.Shared.App.Counters.{is_failure}
use cloud_microservices.Shared.App.Traffic.{
  Task, waiting, left, Service, arrive, depart, Step, arrival, departure, Reach, here, next,
}

-- whether a request has the path and the method of `q`
abbrev pub is_of : Request → Request → Bool
is_of q r = (r.path == q.path) && (r.method == q.method)

module _ {B : Type 0} where
  abbrev pub ended : Task B → ℕ
  ended (waiting r c) = 0
  ended (left r o c) = 1

  abbrev pub failed : Task B → ℕ
  failed (waiting r c) = 0
  failed (left r o c) = if is_failure o then 1 else 0

  -- A task has the context of its own request until it has answered it; one that was cancelled keeps it.
  abbrev pub HasContext : Task B → Type 0
  HasContext (waiting r c) = c ≡ some r
  HasContext (left r (responded a) c) = c ≡ none
  HasContext (left r (raised m) c) = c ≡ none
  HasContext (left r cancelled c) = c ≡ some r

  -- how often a task has answered the request `q`, and how often by an exception of its route
  abbrev pub answers_to : Request → Task B → ℕ
  answers_to q (waiting r c) = 0
  answers_to q (left r (responded a) c) = if is_of q r then 1 else 0
  answers_to q (left r (raised m) c) = if is_of q r then 1 else 0
  answers_to q (left r cancelled c) = 0

  abbrev pub exceptions_of : Request → Task B → ℕ
  exceptions_of q (waiting r c) = 0
  exceptions_of q (left r (responded a) c) = 0
  exceptions_of q (left r (raised m) c) = if is_of q r then 1 else 0
  exceptions_of q (left r cancelled c) = 0

-- whether a context shows the request `q`
abbrev pub shows : Request → Option Request → Bool
shows q none = false
shows q (some r) = is_of q r

-- the lines that show the request `q`
abbrev pub completions_of : {F : Type 0} → Request → LogLine F → ℕ
completions_of q (unhandled_exception c m) = 0
completions_of q (request_completed c n d e) = if shows q c then 1 else 0

abbrev pub errors_of : {F : Type 0} → Request → LogLine F → ℕ
errors_of q (unhandled_exception c m) = if shows q c then 1 else 0
errors_of q (request_completed c n d e) = 0

-- a log line shows a request
abbrev pub ShowsRequest : {F : Type 0} → LogLine F → Type 0
ShowsRequest (unhandled_exception c m) = (r : Request) × (c ≡ some r)
ShowsRequest (request_completed c n d e) = (r : Request) × (c ≡ some r)

-- a count, if the level lets the lines through
abbrev pub let_through : ℕ → ℕ → ℕ → ℕ
let_through min_level severity n = if ltb severity min_level then 0 else n

pub record IsAccounted {F B : Type 0} (s : Service F B) : Type 0 where
  pub counted : s.metrics.request_count ≡ total ended s.tasks
  pub failures : s.metrics.error_count ≡ total failed s.tasks
  pub logged :
      (q : Request)
      → total (completions_of q) s.logs ≡ let_through s.min_level 20 (total (answers_to q) s.tasks)
  pub errors :
      (q : Request)
      → total (errors_of q) s.logs ≡ let_through s.min_level 40 (total (exceptions_of q) s.tasks)
  pub contexts : All HasContext s.tasks
  pub shown : All ShowsRequest s.logs

module _ (fl : Floats) {B : Type 0} (server_error : B) where
  open fl use {Float}

  arrive-IsAccounted :
      (r : Request) (s : Service Float B) → IsAccounted s → IsAccounted (arrive fl server_error r s)
  unfolding arrive
  arrive-IsAccounted r s v =
      let new = waiting r (some r) in
      record {
        counted = omega (arith, v.counted, total-append ended s.tasks (new ∷ []));
        failures = omega (arith, v.failures, total-append failed s.tasks (new ∷ []));
        logged = λ q. ground (arith, v.logged q, total-append (answers_to q) s.tasks (new ∷ []));
        errors = λ q. ground (arith, v.errors q, total-append (exceptions_of q) s.tasks (new ∷ []));
        contexts = All-append HasContext s.tasks (new ∷ []) v.contexts (refl, tt);
        shown = v.shown;
      }

  written-ShowsRequest :
      (n : ℕ) (line : LogLine Float) → ShowsRequest line → All ShowsRequest (written n line)
  written-ShowsRequest n line h = elim (Bool-cases (ltb (severity line) n)) [
    | inl off ↦ rw off tt
    | inr on ↦ rw on (h, tt)
  ]

  depart-IsAccounted :
      (i : ℕ) (q : Request) (c : Option Request) (o : Outcome B) (d : Float) (s : Service Float B)
      → get_elem? s.tasks i ≡ some (waiting q c)
      → IsAccounted s
      → IsAccounted (depart fl server_error i q c o d s)
  unfolding depart record_request
  depart-IsAccounted i r c o d s h v =
      go o c h (All-at HasContext s.tasks i (waiting r c) h v.contexts)
    where
      go :
          (o : Outcome B) (c : Option Request)
          → get_elem? s.tasks i ≡ some (waiting r c)
          → c ≡ some r
          → IsAccounted (depart fl server_error i r c o d s)
      go (responded a) c h own =
          let gone = left r (responded a) none in
          let line = request_completed c a.status_code (fl.round d 2) (leb 500 a.status_code) in
          record {
            counted = omega (arith, v.counted, total-set ended s.tasks i (waiting r c) gone h);
            failures = ground (arith, v.failures, total-set failed s.tasks i (waiting r c) gone h);
            logged = λ q. ground (
              arith,
              own,
              v.logged q,
              total-append (completions_of q) s.logs (written s.min_level line),
              total-set (answers_to q) s.tasks i (waiting r c) gone h,
            );
            errors = λ q. ground (
              arith,
              own,
              v.errors q,
              total-append (errors_of q) s.logs (written s.min_level line),
              total-set (exceptions_of q) s.tasks i (waiting r c) gone h,
            );
            contexts = All-set HasContext s.tasks i gone refl v.contexts;
            shown =
                All-append ShowsRequest s.logs (written s.min_level line) v.shown
                  (written-ShowsRequest s.min_level line (r, own));
          }
      go (raised m) c h own =
          let gone = left r (raised m) none in
          let line = unhandled_exception c m in
          let line' = request_completed c 500 (fl.round d 2) true in
          let logs = s.logs ++ written s.min_level line in
          record {
            counted = omega (arith, v.counted, total-set ended s.tasks i (waiting r c) gone h);
            failures = omega (arith, v.failures, total-set failed s.tasks i (waiting r c) gone h);
            logged = λ q. ground (
              arith,
              own,
              v.logged q,
              total-append (completions_of q) s.logs (written s.min_level line),
              total-append (completions_of q) logs (written s.min_level line'),
              total-set (answers_to q) s.tasks i (waiting r c) gone h,
            );
            errors = λ q. ground (
              arith,
              own,
              v.errors q,
              total-append (errors_of q) s.logs (written s.min_level line),
              total-append (errors_of q) logs (written s.min_level line'),
              total-set (exceptions_of q) s.tasks i (waiting r c) gone h,
            );
            contexts = All-set HasContext s.tasks i gone refl v.contexts;
            shown =
                All-append ShowsRequest logs (written s.min_level line')
                  (All-append ShowsRequest s.logs (written s.min_level line) v.shown
                    (written-ShowsRequest s.min_level line (r, own)))
                  (written-ShowsRequest s.min_level line' (r, own));
          }
      go cancelled c h own =
          let gone = left r cancelled c in
          record {
            counted = omega (arith, v.counted, total-set ended s.tasks i (waiting r c) gone h);
            failures = omega (arith, v.failures, total-set failed s.tasks i (waiting r c) gone h);
            logged = λ q.
                ground (arith, v.logged q, total-set (answers_to q) s.tasks i (waiting r c) gone h);
            errors = λ q.
                ground
                  (arith, v.errors q, total-set (exceptions_of q) s.tasks i (waiting r c) gone h);
            contexts = All-set HasContext s.tasks i gone own v.contexts;
            shown = v.shown;
          }

  Step-IsAccounted :
      {s t : Service Float B} → Step fl server_error s t → IsAccounted s → IsAccounted t
  Step-IsAccounted {s} (arrival r) v = arrive-IsAccounted r s v
  Step-IsAccounted {s} (departure i r c o d h) v = depart-IsAccounted i r c o d s h v

  -- From accounts that are right, every interleaving of requests leaves them right: the service has
  -- counted each request that has left the middleware, as an error exactly when it failed; for every path and method
  -- the log has as many lines `request_completed` that show it as tasks of such a request were answered, and as many
  -- lines of an exception as their routes raised, unless the level is above the line's; every line shows a
  -- request; and a task has the context of its own request exactly until that is answered.
  pub Reach-IsAccounted :
      {s t : Service Float B} → Reach fl server_error s t → IsAccounted s → IsAccounted t
  Reach-IsAccounted here v = v
  Reach-IsAccounted (next r st) v = Step-IsAccounted st (Reach-IsAccounted r v)
