-- ===== src/Orchestration/Recovery/Start.antt =====
-- orchestration/recovery.py: a new watcher has a fresh runtime for each of its targets.
use cloud_microservices.Prelude.{
  String, ◌≡◌, refl, true, false, inl, some, List, [], ◌∷◌, arith, All, eq_iff, eq_refl,
}
use cloud_microservices.Prelude.Dict
use cloud_microservices.Prelude.Dict.{Dict, get-put, is_some}
use cloud_microservices.Orchestration.Targets.{ServiceTarget}
use cloud_microservices.Orchestration.Recovery.{WatcherConfig, ServiceRuntime, fresh_runtimes, init}
use cloud_microservices.Orchestration.Recovery.Invariant.{IsWatching}

module _ {F : Type 0} where
  -- nothing has been seen of the service yet
  pub record IsFresh (k : String) (rt : ServiceRuntime F) : Type 0 where
    pub named : rt.target.name ≡ k
    pub idle : rt.consecutive_failures ≡ 0
    pub empty : rt.history ≡ []

  abbrev AllFresh : Dict (ServiceRuntime F) → Type 0
  AllFresh d = (k : String) (rt : ServiceRuntime F) → Dict.get k d ≡ some rt → IsFresh k rt

  abbrev fresh : ServiceTarget → ServiceRuntime F
  fresh t = record { target = t; consecutive_failures = 0; history = [] }

  put-AllFresh :
      (t : ServiceTarget) (d : Dict (ServiceRuntime F))
      → AllFresh d
      → AllFresh (Dict.put t.name (fresh t) d)
  put-AllFresh t d all k rt h =
      ground (arith, get-put t.name k (fresh t) d, eq_iff t.name k, all k rt)

  fresh_runtimes-AllFresh :
      (d : Dict (ServiceRuntime F)) (ts : List ServiceTarget)
      → AllFresh d
      → AllFresh (fresh_runtimes d ts)
  unfolding fresh_runtimes
  fresh_runtimes-AllFresh d [] all = all
  fresh_runtimes-AllFresh d (t ∷ ts) all =
      fresh_runtimes-AllFresh (Dict.put t.name (fresh t) d) ts (put-AllFresh t d all)

  abbrev Has : Dict (ServiceRuntime F) → String → Type 0
  Has d k = is_some (Dict.get k d) ≡ true

  put-Has :
      (t : ServiceTarget) (d : Dict (ServiceRuntime F)) (k : String)
      → Has d k
      → Has (Dict.put t.name (fresh t) d) k
  put-Has t d k h = rw (get-put t.name k (fresh t) d) (ground arith)

  fresh_runtimes-Has :
      (d : Dict (ServiceRuntime F)) (ts : List ServiceTarget) (k : String)
      → Has d k
      → Has (fresh_runtimes d ts) k
  unfolding fresh_runtimes
  fresh_runtimes-Has d [] k h = h
  fresh_runtimes-Has d (t ∷ ts) k h =
      fresh_runtimes-Has (Dict.put t.name (fresh t) d) ts k (put-Has t d k h)

  fresh_runtimes-Has_all :
      (d : Dict (ServiceRuntime F)) (ts : List ServiceTarget)
      → All (λ t. Has (fresh_runtimes d ts) t.name) ts
  unfolding fresh_runtimes
  fresh_runtimes-Has_all d [] = tt
  fresh_runtimes-Has_all d (t ∷ ts) = (
    fresh_runtimes-Has (Dict.put t.name (fresh t) d) ts t.name
        (rw (get-put t.name t.name (fresh t) d) (rw (eq_refl t.name))),
    fresh_runtimes-Has_all (Dict.put t.name (fresh t) d) ts,
  )

  module _ (targets : List ServiceTarget) (config : WatcherConfig F) where
    pub init_fields :
        ((init targets config).stop ≡ false)
        × ((init targets config).targets ≡ targets)
        × ((init targets config).config ≡ config)
    unfolding init
    init_fields = (refl, refl, refl)

    pub init-IsFresh :
        (k : String) (rt : ServiceRuntime F)
        → Dict.get k (init targets config).runtimes ≡ some rt
        → IsFresh k rt
    unfolding init Dict.get
    init-IsFresh = fresh_runtimes-AllFresh [] targets (λ k rt h. cc)

    -- A new watcher satisfies the invariant, for any targets and any configuration.
    pub init-IsWatching : IsWatching (init targets config)
    unfolding init Dict.get
    init-IsWatching = record {
      every_target = fresh_runtimes-Has_all [] targets;
      every_runtime = λ k rt h.
          let f : IsFresh k rt = fresh_runtimes-AllFresh [] targets (λ k' rt' h'. cc) k rt h in
          record { named = f.named; counted = rw f.empty; below = inl f.idle };
    }
