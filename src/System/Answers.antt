-- ===== src/System/Answers.antt =====
-- api-gateway in front of service-a: what a client is answered.
use Prim.Native.String
use cloud_microservices.Prelude.{
  Option-cases, ℕ, ◌+◌, ◌≤◌, String, ◌≡◌, refl, eq_iff, ◌∙◌, subst, inl, inr, true, false, Option,
  none, some, arith, ◌==◌, if◌then◌else◌, Result, ok, err,
}
use cloud_microservices.Prelude.Dict
use cloud_microservices.Prelude.Dict.{Dict}
use mathlib.Core.Option
use cloud_microservices.Floats.{Floats}
use cloud_microservices.Http.{Exchange, Httpx}
use cloud_microservices.Shared.Models.{
  ProcessRequest, ProcessResponse, HandlerError, http_exception, unhandled,
}
use cloud_microservices.Shared.App.{responded, Reply, Request, ServiceApp, AppError, middleware}
use cloud_microservices.Shared.Metrics.{record_request}
use cloud_microservices.Gateway.Config.{Settings}
use cloud_microservices.Gateway.Proxy
use cloud_microservices.Gateway.Proxy.{process_flavour_routes, proxy-Relays}
use cloud_microservices.System.Refusals.{IsRefusal, service_a-IsRefusal}
use cloud_microservices.System.{
  Json, Downstream, routed, received, service_a, call_service_a, gateway, call_gateway,
}

module _ (fl : Floats) (hx : Httpx) where
  open fl use {Float}

  module _ {J : Type 0} (json : Json Float J) (settings : Settings Float)
      (post : String → ProcessRequest Float → Exchange J) (d : Downstream Float) where
    -- What httpx and pydantic document: a status of 400 or more is no success and 200 is one, and
    -- the JSON of a response that has one is read back as that response.
    pub record IsHonest : Type 0 where
      pub success : hx.is_success 200 ≡ true
      pub refusal : (code : ℕ) → 400 ≤ code → hx.is_success code ≡ false
      pub round_trip :
          (r : ProcessResponse Float) (body : J)
          → json.dump r ≡ some body
          → json.validate body ≡ some r

    -- service-a is at the URL of the settings, in whichever state requests find it
    abbrev pub IsReached : Type 0
    IsReached =
        (path : String) (req : ProcessRequest Float)
        → (ms : Float) × (app : ServiceApp Float) × (post (String.◌++◌ settings.service_a_url path)
              req
            ≡ call_service_a fl hx json d ms app path req)

    -- what the gateway makes of the answer of service-a's handler
    abbrev relayed :
        Result HandlerError (ProcessResponse Float) → Result HandlerError (ProcessResponse Float)
    relayed (ok response) = elim (json.dump response) [
      | none ↦ err (http_exception 502 "service-a error")
      | some body ↦ ok response
    ]
    relayed (err e) = err (http_exception 502 "service-a error")

    relayed_of_Relays :
        (request : Request) (ms : Float) (app : ServiceApp Float)
        (r out : Result HandlerError (ProcessResponse Float))
        → IsHonest
        → IsRefusal r
        → Proxy.Relays hx settings json.validate post
            (received json (middleware fl json.internal_error request (routed json r) ms app).0)
            out
        → out ≡ relayed r
    unfolding middleware
    relayed_of_Relays request ms app (ok response) out honest h relays =
        elim (Option-cases (json.dump response)) [
          | inl none' ↦ let refused = honest.refusal 500 (omega arith) in ground (arith, none')
          | inr (body, e) ↦ ground (arith, honest.success, e, honest.round_trip response body e)
        ]
    relayed_of_Relays request ms app (err (http_exception code text)) out honest h relays =
        rw (honest.refusal code h) at relays
    relayed_of_Relays request ms app (err (unhandled message)) out honest h relays =
        rw (honest.refusal 500 (omega arith)) at relays

    proxy_relays :
        (path : String) (req : ProcessRequest Float)
        → IsHonest
        → IsReached
        → Proxy.proxy_to_service_a hx settings json.validate post req path
          ≡ relayed (service_a fl hx d path req)
    unfolding call_service_a
    proxy_relays path req honest reached =
        let (ms, app, p) = reached path req in
        relayed_of_Relays (record { path = path; method = "POST" }) ms app
          (service_a fl hx d path req)
          (Proxy.proxy_to_service_a hx settings json.validate post req path) honest
          (service_a-IsRefusal fl hx d path req)
          (subst
            (λ x.
              Proxy.Relays hx settings json.validate post x
                (Proxy.proxy_to_service_a hx settings json.validate post req path))
            p (proxy-Relays hx settings json.validate post req path))

    -- the route of service-a that the gateway chooses
    abbrev pub path_of : Option String → Option String
    path_of none = some "/process"
    path_of (some flavour) =
        if flavour == "queue"
        then some "/process/queue"
        else if flavour == "threadpool"
        then some "/process/threadpool"
        else none

    abbrev pub IsBadGateway : Result AppError (Reply J) → ℕ → Type 0
    IsBadGateway reply errors =
        (reply ≡ ok (record { status_code = 502; body = json.detail "service-a error" }))
        × (errors ≡ 1)

    -- what is answered to the client, and how many errors that counts at the gateway
    abbrev pub Answer :
        Option (Result HandlerError (ProcessResponse Float))
        → Result AppError (Reply J)
        → ℕ
        → Type 0
    Answer none reply errors =
        (reply ≡ ok (record { status_code = 400; body = json.detail "unknown flavour" }))
        × (errors ≡ 0)
    Answer (some (ok response)) reply errors = elim (json.dump response) [
      | none ↦ IsBadGateway reply errors
      | some body ↦ (reply ≡ ok (record { status_code = 200; body = body })) × (errors ≡ 0)
    ]
    Answer (some (err e)) reply errors = IsBadGateway reply errors

    -- what the gateway's handler makes of a request
    abbrev answered_with :
        Option (Result HandlerError (ProcessResponse Float))
        → Result HandlerError (ProcessResponse Float)
    answered_with none = err (http_exception 400 "unknown flavour")
    answered_with (some r) = relayed r

    gateway-relayed :
        (flavour : Option String) (req : ProcessRequest Float)
        → IsHonest
        → IsReached
        → gateway fl hx json settings post flavour req
          ≡ answered_with (Option.map (λ path. service_a fl hx d path req) (path_of flavour))
    unfolding gateway Proxy.process Proxy.flavour_paths Dict.get
    gateway-relayed none req honest reached = proxy_relays "/process" req honest reached
    gateway-relayed (some flavour) req honest reached =
        elim (process_flavour_routes hx settings json.validate post flavour req) [
          | inl (e, f) ↦ f ∙ proxy_relays "/process/queue" req honest reached ∙ rw e refl
          | inr (inl (e, f)) ↦ f ∙ proxy_relays "/process/threadpool" req honest reached ∙ rw e refl
          | inr (inr (a, b, f)) ↦
              f ∙ ground (arith, eq_iff flavour "queue", eq_iff flavour "threadpool")
        ]

    answered_with-Answer :
        (request : Request) (o : Option (Result HandlerError (ProcessResponse Float))) (ms : Float)
        (app : ServiceApp Float)
        → let (reply, app') =
            middleware fl json.internal_error request (routed json (answered_with o)) ms app in
          (errors : ℕ) × (app'.metrics.error_count ≡ app.metrics.error_count + errors)
          × Answer o reply errors
    unfolding middleware record_request
    answered_with-Answer request none ms app = (0, omega arith, (refl, refl))
    answered_with-Answer request (some (ok response)) ms app =
        elim (Option-cases (json.dump response)) [
          | inl e ↦ (1, rw (routed, e) (omega arith), rw (Answer, e) (rw (routed, e) refl, refl))
          | inr (body, e) ↦
              let p : routed json (answered_with (some (ok response)))
                  ≡ responded (record { status_code = 200; body = body }) =
                rw (routed, e) (rw e refl) in
              (0, rw p (omega arith), rw (Answer, e) (rw p refl, refl))
        ]
    answered_with-Answer request (some (err e)) ms app = (1, omega arith, (refl, refl))

    -- With httpx and pydantic as documented and service-a at its URL, `POST /process` and the
    -- flavours `queue` and `threadpool` answer a client with 200 and the very response of
    -- service-a's handler, if its numbers can be written as JSON, or else, or, whatever that handler refuses or raises, a 400 of the client's own
    -- fault too, with 502, which the gateway counts as one error; every other flavour is answered
    -- with 400, which is none.
    pub client_answer :
        (request : Request) (flavour : Option String) (req : ProcessRequest Float) (ms : Float)
        (app : ServiceApp Float)
        → IsHonest
        → IsReached
        → let (reply, app') = call_gateway fl hx json settings post request flavour req ms app in
          (errors : ℕ) × (app'.metrics.error_count ≡ app.metrics.error_count + errors)
          × Answer (Option.map (λ path. service_a fl hx d path req) (path_of flavour)) reply errors
    unfolding call_gateway
    client_answer request flavour req ms app honest reached =
        rw (gateway-relayed flavour req honest reached) (
          answered_with-Answer request
            (Option.map (λ path. service_a fl hx d path req) (path_of flavour)) ms app)
