-- ===== src/System/Squares/Agree.antt =====
-- services/service-a/app in front of services/service-b/app/main.py: the three flavours of the
-- pipeline on the same request.
use cloud_microservices.Prelude.{
  ℕ, ◌≡◌, refl, sym, ap, subst, ◌∙◌, inl, inr, none, some, List, [], ◌∷◌, map, arith, ℤ, length,
  Result, ok, err, All, Result-cases,
}
use cloud_microservices.Prelude.Dict.{Dict}
use cloud_microservices.Floats.{Floats}
use cloud_microservices.Http.{Exchange, Httpx}
use cloud_microservices.Shared.Models.{StoreRecord, ProcessRequest, ProcessResponse}
use cloud_microservices.ServiceA.Calls.{CallError, call_result}
use cloud_microservices.ServiceA.Queue
use cloud_microservices.ServiceA.Queue.{Pipeline}
use cloud_microservices.ServiceA.Queue.Answer.{queue_answer}
use cloud_microservices.ServiceA.Main.{
  aggregate, respond, process, process_via_queue, process_via_threadpool,
}
use cloud_microservices.ServiceA.Main.Laws.{process-response}
use cloud_microservices.ServiceA.Main.Flavours.{IsFanOut}
use cloud_microservices.System.Squares.{
  Bodies, payloads, IsHonest, AreMet, calls_square, process_squares,
}

module _ (fl : Floats) where
  open fl use {Float}

  -- the payloads that `_square_one` posts for the items
  unfoldable pub queued_payloads : List Float → List (StoreRecord Float)
  queued_payloads items = map (λ v. record { key = "queued"; value = v }) items

  pow-queued_payloads :
      (items : List Float)
      → map (λ p. fl.pow p.value 2) (queued_payloads items) ≡ map (λ v. fl.pow v 2) items
  unfolding queued_payloads
  pow-queued_payloads [] = refl
  pow-queued_payloads (v ∷ vs) = ap (λ rest. fl.pow v 2 ∷ rest) (pow-queued_payloads vs)

  -- what the queue pipeline has answered behind a schedule of its consumers over the exchanges
  abbrev pub IsQueued :
      Httpx → ℤ → List (Exchange (Dict Float)) → Result CallError (List Float) → Type 0
  IsQueued hx workers exchanges result =
      (ms : List Queue.Move) × (s : Pipeline CallError Float) × (Queue.run ms
          (Queue.start workers (map (call_result hx) exchanges))
        ≡ some s)
      × (Queue.answer fl.zero s ≡ some result)

  -- two responses that differ at most in what cpp-worker has said and in the time
  pub record IsSameAnswer (a b : ProcessResponse Float) : Type 0 where
    pub operation : a.operation ≡ b.operation
    pub result : a.result ≡ b.result
    pub items_processed : a.items_processed ≡ b.items_processed
    pub fanout_results : a.fanout_results ≡ b.fanout_results

  -- a response over values that are the squares of the items
  record IsOver (req : ProcessRequest Float) (a : ProcessResponse Float) : Type 0 where
    pub operation : a.operation ≡ req.operation
    pub items_processed : a.items_processed ≡ length req.items
    pub squares : map some a.fanout_results ≡ map (λ v. fl.pow v 2) req.items
    pub aggregated : aggregate fl a.operation a.fanout_results ≡ ok a.result

  map-some_injective : (xs ys : List Float) → map some xs ≡ map some ys → xs ≡ ys
  map-some_injective [] [] h = refl
  map-some_injective [] (y ∷ ys) h = cc
  map-some_injective (x ∷ xs) [] h = cc
  map-some_injective (x ∷ xs) (y ∷ ys) h = cc (map-some_injective xs ys (ground arith))

  IsSameAnswer-of_IsOver :
      (req : ProcessRequest Float) (a b : ProcessResponse Float)
      → IsOver req a
      → IsOver req b
      → IsSameAnswer a b
  IsSameAnswer-of_IsOver req a b over over' =
      let same =
        map-some_injective a.fanout_results b.fanout_results (over.squares ∙ sym over'.squares) in
      record {
        operation = over.operation ∙ sym over'.operation;
        result = cc (same);
        items_processed = over.items_processed ∙ sym over'.items_processed;
        fanout_results = same;
      }

  -- what the queue and the thread pool end with
  respond-IsOver :
      (req : ProcessRequest Float) (fanout : List Float) (duration_ms : Float)
      (resp : ProcessResponse Float)
      → map some fanout ≡ map (λ v. fl.pow v 2) req.items
      → respond fl req fanout duration_ms ≡ ok resp
      → IsOver req resp
  respond-IsOver req fanout duration_ms resp squares h =
      elim (Result-cases (aggregate fl req.operation fanout)) [
        | inl (result, a) ↦
            let out : ProcessResponse Float = record {
              operation = req.operation;
              result = result;
              items_processed = length req.items;
              fanout_results = fanout;
              cpp_result = none;
              duration_ms = fl.round duration_ms 2;
            } in
            let e : out ≡ resp = ground arith in
            subst (IsOver req) e (record {
              operation = refl;
              items_processed = refl;
              squares = squares;
              aggregated = a;
            })
        | inr (message, a) ↦ absurd (ground arith)
      ]

  squares-threadpool :
      (items : List Float)
      → All (λ v. fl.pow v 2 ≡ some (fl.mul v v)) items
      → map some (map (λ v. fl.mul v v) items) ≡ map (λ v. fl.pow v 2) items
  squares-threadpool [] h = refl
  squares-threadpool (v ∷ vs) h = cc (h.0, squares-threadpool vs h.1)

  module _ {J : Type 0} (bodies : Bodies Float J) (hx : Httpx) where
    queue-IsOver :
        (req : ProcessRequest Float) (workers : ℤ) (exchanges : List (Exchange (Dict Float)))
        (queued : Result CallError (List Float)) (duration_ms : Float)
        (resp : ProcessResponse Float)
        → IsHonest fl bodies hx
        → AreMet fl bodies hx (queued_payloads req.items) exchanges
        → IsQueued hx workers exchanges queued
        → process_via_queue fl req queued duration_ms ≡ ok resp
        → IsOver req resp
    unfolding process_via_queue
    queue-IsOver req workers exchanges (err e) duration_ms resp honest met runs h =
        absurd (ground arith)
    queue-IsOver req workers exchanges (ok fanout) duration_ms resp honest met (ms, s, r, a) h =
        respond-IsOver req fanout duration_ms resp
          (calls_square fl bodies hx (queued_payloads req.items) exchanges fanout honest met
              ((queue_answer fl.zero workers (map (call_result hx) exchanges) ms s r).0 fanout a)
            ∙ pow-queued_payloads req.items)
          h

    -- The three flavours agree: if every success that the calls of the first two meet is the
    -- answer of service-b to its payload, and the power of each item to 2 is its product with
    -- itself, then over any runs of the event loop the responses to one request are the same but
    -- for `cpp_result` and the time.
    pub flavours_agree :
        (req : ProcessRequest Float) (concurrency workers : ℤ)
        (exchanges : ℕ → List (Exchange (Dict Float)))
        (fan_outs : ℕ → Result CallError (List Float)) (jitter : ℕ → Float)
        (cpp : Exchange (Dict Float)) (queue_exchanges : List (Exchange (Dict Float)))
        (queued : Result CallError (List Float)) (main_ms queue_ms pool_ms : Float)
        (main by_queue by_pool : ProcessResponse Float)
        → IsHonest fl bodies hx
        → ((n : ℕ) → AreMet fl bodies hx (payloads fl 0 req.items) (exchanges n))
        → ((n : ℕ) → IsFanOut fl hx concurrency (exchanges n) (fan_outs n))
        → AreMet fl bodies hx (queued_payloads req.items) queue_exchanges
        → IsQueued hx workers queue_exchanges queued
        → All (λ v. fl.pow v 2 ≡ some (fl.mul v v)) req.items
        → process fl hx req fan_outs jitter cpp main_ms ≡ ok main
        → process_via_queue fl req queued queue_ms ≡ ok by_queue
        → process_via_threadpool fl req pool_ms ≡ ok by_pool
        → IsSameAnswer main by_queue × IsSameAnswer main by_pool
    unfolding process_via_threadpool
    flavours_agree req concurrency workers exchanges fan_outs jitter cpp queue_exchanges queued
          main_ms queue_ms pool_ms main by_queue by_pool honest met runs queue_met queue_runs exact
          h h' h'' =
        let (_, _, _, op, count) = process-response fl hx req fan_outs jitter cpp main_ms main h in
        let (squares, aggregated) =
          process_squares fl bodies hx req concurrency exchanges fan_outs jitter cpp main_ms main
            honest met runs h in
        let over : IsOver req main = record {
          operation = op;
          items_processed = count;
          squares = squares;
          aggregated = rw op aggregated;
        } in
        (
          IsSameAnswer-of_IsOver req main by_queue over (
              queue-IsOver req workers queue_exchanges queued queue_ms by_queue honest queue_met
                queue_runs h'),
          IsSameAnswer-of_IsOver req main by_pool over (
              respond-IsOver req (map (λ v. fl.mul v v) req.items) pool_ms by_pool
                (squares-threadpool req.items exact) h''),
        )
