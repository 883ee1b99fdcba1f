-- ===== src/Gateway/Health.antt =====
-- services/api-gateway/app/main.py: `GET /system/health`. `get` is what a request to a URL meets.
use Prim.Native.String
use cloud_microservices.Prelude.{
  String, ◌≡◌, refl, ◌⊎◌, inl, inr, Bool, true, false, Option, none, some, List, [], ◌∷◌, map,
  arith, all, any, Result, ok, err, ◌>>=◌, Result-cases, Option-cases,
}
use cloud_microservices.Http.{Exchange, Httpx, checked}
use cloud_microservices.Shared.Models.{HandlerError, unhandled}
use cloud_microservices.Gateway.Config.{Settings}

pub data Detail (J : Type 0) : Type 0 where
  body : J → Detail J
  message : String → Detail J

pub record Probe (J : Type 0) : Type 0 where
  pub url : String
  pub ok : Bool
  pub detail : Detail J

pub record SystemHealth (J : Type 0) : Type 0 where
  pub ok : Bool
  pub services : List (Probe J)

module _ {F J : Type 0} (hx : Httpx) (settings : Settings F) (get : String → Exchange J) where
  abbrev probed : String → Option J → Result HandlerError (Probe J)
  probed url none = err (unhandled "JSONDecodeError")
  probed url (some json) = ok (record { url = url; ok = true; detail = body json })

  -- `_probe`: only `httpx.HTTPError` is caught, and not the error of a body that is no JSON
  unfoldable pub probe : String → Result HandlerError (Probe J)
  probe url = elim (checked hx (get url)) [
    | ok response ↦ probed url response.json
    | err exc ↦ ok (record { url = url; ok = false; detail = message (hx.describe exc) })
  ]

  -- `asyncio.gather`: the results in order, or an exception
  unfoldable pub gather : List String → Result HandlerError (List (Probe J))
  gather [] = ok []
  gather (url ∷ urls) = do first ← probe url; rest ← gather urls; ok (first ∷ rest)

  unfoldable pub targets : List String
  targets =
      String.◌++◌ settings.service_a_url "/health"
      ∷ String.◌++◌ settings.service_b_url "/health"
      ∷ String.◌++◌ settings.cpp_worker_url "/health"
      ∷ []

  unfoldable pub system_health : Result HandlerError (SystemHealth J)
  system_health = do
    results ← gather targets
    ok (record { ok = all (λ r. r.ok) results; services = results })

  -- whether a service answers with a status that does not raise
  abbrev pub is_up : String → Bool
  is_up url = elim (checked hx (get url)) [ ok _ ↦ true | err _ ↦ false ]

  -- whether a service answers so, and with a body that is no JSON
  abbrev pub is_garbled : String → Bool
  is_garbled url = elim (checked hx (get url)) [
    | ok response ↦ elim response.json [ none ↦ true | some _ ↦ false ]
    | err _ ↦ false
  ]

  probe_cases :
      (url : String)
      → ((is_garbled url ≡ true) × (probe url ≡ err (unhandled "JSONDecodeError")))
        ⊎ ((is_garbled url ≡ false)
            × ((p : Probe J) × (probe url ≡ ok p) × (p.url ≡ url) × (p.ok ≡ is_up url)))
  unfolding probe
  probe_cases url = elim (Result-cases (checked hx (get url))) [
    | inr (exc, e) ↦ inr (
      ground arith,
      (
        record { url = url; ok = false; detail = message (hx.describe exc) },
        rw (e, probe) refl,
        refl,
        ground arith,
      ),
    )
    | inl (response, e) ↦ elim (Option-cases response.json) [
      | inl n ↦ inl (ground arith, rw (e, probe, n) refl)
      | inr (json, j) ↦ inr (
        ground arith,
        (
          record { url = url; ok = true; detail = body json },
          rw (e, probe, j) refl,
          refl,
          ground arith,
        ),
      )
    ]
  ]

  abbrev pub urls_of : List (Probe J) → List String
  urls_of = map (λ p. p.url)

  gather_cases :
      (urls : List String)
      → ((any is_garbled urls ≡ true) × (gather urls ≡ err (unhandled "JSONDecodeError")))
        ⊎ ((any is_garbled urls ≡ false)
            × ((ps : List (Probe J)) × (gather urls ≡ ok ps)
                × (urls_of ps ≡ urls)
                × (all (λ p. p.ok) ps ≡ all is_up urls)))
  unfolding gather
  gather_cases [] = inr (refl, ([], refl, refl, refl))
  gather_cases (u ∷ us) = elim (probe_cases u) [
    | inl (g, e) ↦ inl (ground arith, rw e refl)
    | inr (g, (p, e, url, up)) ↦ elim (gather_cases us) [
      | inl (gs, es) ↦ inl (ground arith, rw e (rw es refl))
      | inr (gs, (ps, es, urls, ups)) ↦
          inr
            (ground arith, (p ∷ ps, rw e (rw es refl), rw url (rw urls refl), rw up (rw ups refl)))
    ]
  ]

  -- `/system/health` answers exactly when none of the three services answers, with a status that does not
  -- raise, a body that is no JSON; one that does makes it fail as a whole with that error. The answer
  -- lists service-a, service-b and the worker in this order, and is ok exactly when all three are up.
  pub system_health_lem :
      ((any is_garbled targets ≡ true) × (system_health ≡ err (unhandled "JSONDecodeError")))
      ⊎ ((any is_garbled targets ≡ false)
          × ((health : SystemHealth J) × (system_health ≡ ok health)
              × (urls_of health.services ≡ targets)
              × (health.ok ≡ all is_up targets)))
  unfolding system_health
  system_health_lem = elim (gather_cases targets) [
    | inl (g, e) ↦ inl (g, rw e refl)
    | inr (g, (ps, e, urls, up)) ↦
        inr (g, (record { ok = all (λ r. r.ok) ps; services = ps }, rw e refl, urls, up))
  ]
