-- ===== src/Gateway/Proxy.antt =====
-- services/api-gateway/app/main.py: `POST /process` and `POST /process/{flavour}`. `post` is what a request
-- to a URL meets; `validate` is `ProcessResponse.model_validate`, which raises where it has no value.
use Prim.Native.String
use cloud_microservices.Prelude.{
  String, ◌≡◌, ◌≢◌, refl, ◌⊎◌, inl, inr, true, not, ◌||◌, Option, none, some, [], ◌∷◌, arith, ◌==◌,
  eq_iff, if◌then◌else◌, Result, ok, err, Bool-cases, sym,
}
use cloud_microservices.Prelude.Dict
use cloud_microservices.Prelude.Dict.{Dict, is_some}
use cloud_microservices.Http.{
  Exchange, answered, failed, status_error, transport_error, Httpx, checked,
}
use cloud_microservices.Shared.Models.{
  ProcessRequest, ProcessResponse, HandlerError, http_exception, unhandled,
}
use cloud_microservices.Gateway.Config.{Settings}

unfoldable pub flavour_paths : Dict String
flavour_paths =
    ("default", "/process")
    ∷ ("queue", "/process/queue")
    ∷ ("threadpool", "/process/threadpool")
    ∷ []

module _ {F J : Type 0} (hx : Httpx) (settings : Settings F)
    (validate : J → Option (ProcessResponse F))
    (post : String → ProcessRequest F → Exchange J) where
  -- `ProcessResponse.model_validate(response.json())`
  abbrev pub unwrapped : Option J → Result HandlerError (ProcessResponse F)
  unwrapped none = err (unhandled "JSONDecodeError")
  unwrapped (some body) = elim (validate body) [
    | none ↦ err (unhandled "ValidationError")
    | some response ↦ ok response
  ]

  -- `_proxy_to_service_a`
  unfoldable pub proxy_to_service_a :
      ProcessRequest F → String → Result HandlerError (ProcessResponse F)
  unfolding checked
  proxy_to_service_a req path =
      elim (checked hx (post (String.◌++◌ settings.service_a_url path) req)) [
        | err (status_error code text) ↦ err (http_exception 502 "service-a error")
        | err (transport_error message) ↦ err (http_exception 502 "service-a unreachable")
        | ok response ↦ unwrapped response.json
      ]

  -- `process`, which reads its path from the table
  unfoldable pub process : ProcessRequest F → Result HandlerError (ProcessResponse F)
  unfolding flavour_paths Dict.get
  process req = elim (Dict.get "default" flavour_paths) [
    | none ↦ err (unhandled "KeyError")
    | some path ↦ proxy_to_service_a req path
  ]

  -- `process_flavour`; the detail of the 400 is given without the flavour's name
  unfoldable pub process_flavour :
      String → ProcessRequest F → Result HandlerError (ProcessResponse F)
  unfolding flavour_paths Dict.get
  process_flavour flavour req =
      if not (is_some (Dict.get flavour flavour_paths)) || flavour == "default"
      then err (http_exception 400 "unknown flavour")
      else elim (Dict.get flavour flavour_paths) [
        | none ↦ err (unhandled "KeyError")
        | some path ↦ proxy_to_service_a req path
      ]

  -- Exactly the flavours `queue` and `threadpool` are forwarded, each to its own route of service-a;
  -- every other one, `default` too, is refused with 400 and reaches no service.
  pub process_flavour_routes :
      (flavour : String) (req : ProcessRequest F)
      → ((flavour ≡ "queue")
          × (process_flavour flavour req ≡ proxy_to_service_a req "/process/queue"))
        ⊎ ((flavour ≡ "threadpool")
            × (process_flavour flavour req ≡ proxy_to_service_a req "/process/threadpool"))
        ⊎ ((flavour ≢ "queue")
            × (flavour ≢ "threadpool")
            × (process_flavour flavour req ≡ err (http_exception 400 "unknown flavour")))
  unfolding process_flavour
  process_flavour_routes flavour req =
      let q = eq_iff "queue" flavour in
      let t = eq_iff "threadpool" flavour in
      let flip : "default" == flavour ≡ true → flavour == "default" ≡ true =
        λ h. (eq_iff flavour "default").1 (sym ((eq_iff "default" flavour).0 h)) in
      elim (Bool-cases ("queue" == flavour)) [
        | inl is ↦ let e = sym (q.0 is) in inl (e, rw e refl)
        | inr isnt_queue ↦ elim (Bool-cases ("threadpool" == flavour)) [
          | inl is ↦ let e = sym (t.0 is) in inr (inl (e, rw e refl))
          | inr isnt_threadpool ↦ inr (
              inr (
                (λ e. let h = q.1 (sym e) in ground arith),
                (λ e. let h = t.1 (sym e) in ground arith),
                ground (arith, flip),
              ))
        ]
      ]

  -- What the gateway makes of an answer of service-a: a status that raises and a transport failure
  -- both become 502, whatever status service-a had chosen.
  abbrev pub Relays : Exchange J → Result HandlerError (ProcessResponse F) → Type 0
  Relays (failed message) r = r ≡ err (http_exception 502 "service-a unreachable")
  Relays (answered a) r =
      if hx.is_success a.status_code
      then (r ≡ unwrapped a.json)
      else (r ≡ err (http_exception 502 "service-a error"))

  pub proxy-Relays :
      (req : ProcessRequest F) (path : String)
      → Relays (post (String.◌++◌ settings.service_a_url path) req) (proxy_to_service_a req path)
  unfolding proxy_to_service_a
  proxy-Relays req path = ground arith
