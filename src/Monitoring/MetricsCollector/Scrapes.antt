-- ===== src/Monitoring/MetricsCollector/Scrapes.antt =====
-- monitoring/metrics_collector.py: a scrape of all services holds the scrape of each one.
use cloud_microservices.Prelude.{
  String, ◌≡◌, refl, ap, ◌∙◌, inl, inr, false, Option, none, some, List, [], ◌∷◌, arith, ◌==◌,
  eq_iff, ok, Result-cases, All, subst,
}
use cloud_microservices.Prelude.Dict
use cloud_microservices.Prelude.Dict.{Dict, Lacks, HasUniqueKeys, get-put}
use cloud_microservices.Http.{Exchange, Httpx, checked}
use cloud_microservices.Orchestration.Targets.{ServiceTarget}
use cloud_microservices.Monitoring.MetricsCollector.{
  Payload, metrics_url, payload_of, scrape_one, gather, dict_of, scrape_all,
}

module _ {J : Type 0} (hx : Httpx) (get : String → Exchange J) where
  -- no other target of the rows has the name
  abbrev pub AreDistinct : List ServiceTarget → Type 0
  AreDistinct [] = Unit
  AreDistinct (t ∷ ts) = All (λ u. (u.name == t.name) ≡ false) ts × AreDistinct ts

  payload_of_name :
      (name : String) (body : Option J) (n : String) (p : Payload J)
      → payload_of hx name body ≡ ok (n, p)
      → n ≡ name
  payload_of_name name none n p h = ground arith
  payload_of_name name (some body) n p h = ground arith

  scrape_one_name :
      (t : ServiceTarget) (n : String) (p : Payload J)
      → scrape_one hx get t ≡ ok (n, p)
      → n ≡ t.name
  unfolding scrape_one
  scrape_one_name t n p h = elim (Result-cases (checked hx (get (metrics_url t)))) [
    | inl (resp, e) ↦ payload_of_name t.name resp.json n p (ground arith)
    | inr (exc, e) ↦ ground arith
  ]

  -- the scrapes of a row of targets, one by one
  Scrapes : List ServiceTarget → Dict (Payload J) → Type 0
  Scrapes [] [] = Unit
  Scrapes [] (e ∷ es) = ⊥
  Scrapes (t ∷ ts) [] = ⊥
  Scrapes (t ∷ ts) (e ∷ es) =
      (scrape_one hx get t ≡ ok (t.name, e.1)) × (e.0 ≡ t.name) × Scrapes ts es

  gather-Scrapes :
      (ts : List ServiceTarget) (es : Dict (Payload J)) → gather hx get ts ≡ ok es → Scrapes ts es
  unfolding gather Scrapes
  gather-Scrapes [] [] h = tt
  gather-Scrapes [] (e ∷ es) h = absurd (ground arith)
  gather-Scrapes (t ∷ ts) es h = elim (Result-cases (scrape_one hx get t)) [
    | inr (exc, e) ↦ absurd (ground arith)
    | inl (pair, e) ↦ elim (Result-cases (gather hx get ts)) [
      | inr (exc, f) ↦ absurd (ground arith)
      | inl (pairs, f) ↦
          let same : pair ∷ pairs ≡ es = ground arith in
          let named = scrape_one_name t pair.0 pair.1 e in
          subst (Scrapes (t ∷ ts)) same
            (e ∙ ap (λ n. ok (n, pair.1)) named, named, gather-Scrapes ts pairs f)
    ]
  ]

  Lacks-of_Scrapes :
      (k : String) (ts : List ServiceTarget) (es : Dict (Payload J))
      → Scrapes ts es
      → All (λ u. (u.name == k) ≡ false) ts
      → Lacks k es
  unfolding Scrapes
  Lacks-of_Scrapes k [] [] s h = tt
  Lacks-of_Scrapes k [] (e ∷ es) s h = absurd s
  Lacks-of_Scrapes k (t ∷ ts) [] s h = absurd s
  Lacks-of_Scrapes k (t ∷ ts) (e ∷ es) s h = (rw (s.1) h.0, Lacks-of_Scrapes k ts es s.2 h.1)

  get-dict_of-Lacks :
      (k : String) (d es : Dict (Payload J))
      → Lacks k es
      → Dict.get k (dict_of hx d es) ≡ Dict.get k d
  unfolding dict_of
  get-dict_of-Lacks k d [] h = refl
  get-dict_of-Lacks k d ((n, p) ∷ es) h =
      get-dict_of-Lacks k (Dict.put n p d) es h.1 ∙ get-put n k p d ∙ rw h.0 refl

  -- what the services show of a target
  abbrev pub IsShown : Dict (Payload J) → ServiceTarget → Type 0
  IsShown services t =
      (p : Payload J) × (scrape_one hx get t ≡ ok (t.name, p)) × (Dict.get t.name services ≡ some p)

  dict_of-IsShown :
      (ts : List ServiceTarget) (d es : Dict (Payload J))
      → AreDistinct ts
      → Scrapes ts es
      → All (IsShown (dict_of hx d es)) ts
  unfolding Scrapes dict_of
  dict_of-IsShown [] d [] a s = tt
  dict_of-IsShown [] d (e ∷ es) a s = absurd s
  dict_of-IsShown (t ∷ ts) d [] a s = absurd s
  dict_of-IsShown (t ∷ ts) d ((n, p) ∷ es) a s = (
    (
      p,
      s.0,
      get-dict_of-Lacks t.name (Dict.put n p d) es (Lacks-of_Scrapes t.name ts es s.2 a.0)
          ∙ get-put n t.name p d
          ∙ ground (arith, eq_iff n t.name),
    ),
    dict_of-IsShown ts (Dict.put n p d) es a.1 s.2,
  )

  -- For targets of different names, a scrape of all that does not raise shows under each target's name the
  -- scrape of that target: its metrics, or the error that its request met.
  pub scrape_all-IsShown :
      (ts : List ServiceTarget) (services : Dict (Payload J))
      → AreDistinct ts
      → scrape_all hx ts get ≡ ok services
      → All (IsShown services) ts
  unfolding scrape_all
  scrape_all-IsShown ts services a h = elim (Result-cases (gather hx get ts)) [
    | inr (exc, e) ↦ absurd (ground arith)
    | inl (pairs, e) ↦
        let same : dict_of hx [] pairs ≡ services = ground arith in
        subst (λ d. All (IsShown d) ts) same
          (dict_of-IsShown ts [] pairs a (gather-Scrapes ts pairs e))
  ]
