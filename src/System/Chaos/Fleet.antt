-- ===== src/System/Chaos/Fleet.antt =====
-- services/fault-injector/app/main.py and orchestration: the containers that may be killed are
-- the containers of services that the watcher of orchestration/__init__.py watches.
use cloud_microservices.Prelude.{
  ◌<◌, String, ◌≡◌, refl, ◌∙◌, subst, inl, inr, true, ◌==◌, eq_iff, some, List, [], ◌∷◌, arith, All,
  Bool-cases,
}
use cloud_microservices.Prelude.Dict
use cloud_microservices.Shared.Env.{Env}
use cloud_microservices.FaultInjector.Main.Safety.{is_listed}
use cloud_microservices.Orchestration.Targets.{ServiceTarget, default_targets}
use cloud_microservices.Orchestration.Recovery.{WatcherConfig, ServiceRuntime, init}
use cloud_microservices.Orchestration.Recovery.Counting.{occurs}
use cloud_microservices.Orchestration.Recovery.Loop.Healing.{IsBehind}

-- each probe reaches the container of its target
abbrev pub AreBehind : (String → String) → List ServiceTarget → Type 0
AreBehind behind = All (λ t. behind t.health_url ≡ t.container)

-- the name belongs to the container alone
abbrev pub Names : String → String → List ServiceTarget → Type 0
Names k c = All (λ t. (t.name == k) ≡ true → t.container ≡ c)

pub Names-IsBehind :
    (behind : String → String) (k c : String) (ts : List ServiceTarget)
    → AreBehind behind ts
    → Names k c ts
    → IsBehind behind k c ts
Names-IsBehind behind k c [] b n = tt
Names-IsBehind behind k c (t ∷ ts) b n = ((λ h. b.0 ∙ n.0 h), Names-IsBehind behind k c ts b.1 n.1)

module _ {F : Type 0} (env : Env) (config : WatcherConfig F) where
  -- the service of a container, in a new watcher of the default targets
  abbrev pub IsServiceOf : String → String → Type 0
  IsServiceOf c k =
      (rt : ServiceRuntime F) × (Dict.get k (init (default_targets env) config).runtimes ≡ some rt)
      × (rt.target.container ≡ c)
      × (0 < occurs k (default_targets env))
      × Names k c (default_targets env)

  gateway-IsServiceOf : IsServiceOf "cm-api-gateway" "api-gateway"
  unfolding init default_targets Dict.get Dict.put occurs
  gateway-IsServiceOf = (
    _,
    refl,
    refl,
    omega arith,
    ((λ h. refl), ((λ h. cc), ((λ h. cc), ((λ h. cc), ((λ h. cc), tt))))),
  )

  service_a-IsServiceOf : IsServiceOf "cm-service-a" "service-a"
  unfolding init default_targets Dict.get Dict.put occurs
  service_a-IsServiceOf = (
    _,
    refl,
    refl,
    omega arith,
    ((λ h. cc), ((λ h. refl), ((λ h. cc), ((λ h. cc), ((λ h. cc), tt))))),
  )

  service_b-IsServiceOf : IsServiceOf "cm-service-b" "service-b"
  unfolding init default_targets Dict.get Dict.put occurs
  service_b-IsServiceOf = (
    _,
    refl,
    refl,
    omega arith,
    ((λ h. cc), ((λ h. cc), ((λ h. refl), ((λ h. cc), ((λ h. cc), tt))))),
  )

  cpp_worker-IsServiceOf : IsServiceOf "cm-cpp-worker" "cpp-worker"
  unfolding init default_targets Dict.get Dict.put occurs
  cpp_worker-IsServiceOf = (
    _,
    refl,
    refl,
    omega arith,
    ((λ h. cc), ((λ h. cc), ((λ h. cc), ((λ h. refl), ((λ h. cc), tt))))),
  )

  -- Every container of the injector's allow-list is that of a service that is watched.
  pub listed-IsServiceOf : (c : String) → is_listed c ≡ true → (k : String) × IsServiceOf c k
  listed-IsServiceOf c listed = elim (Bool-cases ("cm-api-gateway" == c)) [
    | inl here ↦ moved here "api-gateway" gateway-IsServiceOf
    | inr p ↦ elim (Bool-cases ("cm-service-a" == c)) [
      | inl here ↦ moved here "service-a" service_a-IsServiceOf
      | inr q ↦ elim (Bool-cases ("cm-service-b" == c)) [
        | inl here ↦ moved here "service-b" service_b-IsServiceOf
        | inr r ↦ moved (ground arith) "cpp-worker" cpp_worker-IsServiceOf
      ]
    ]
  ]
    where
      moved :
          {d : String}
          → (d == c) ≡ true
          → (k : String) → IsServiceOf d k
          → (k' : String) × IsServiceOf c k'
      moved {d} same k s = (k, subst (λ x. IsServiceOf x k) ((eq_iff d c).0 same) s)
