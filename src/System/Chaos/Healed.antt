-- ===== src/System/Chaos/Healed.antt =====
-- services/fault-injector/app/main.py and orchestration/recovery.py: what is killed is brought
-- back.
use mathlib.Core.List.{append-nil}
use cloud_microservices.Prelude.{
  ℕ, suc, ◌+◌, ◌≤◌, ◌<◌, String, ◌≡◌, ◌≢◌, inl, inr, true, false, eq_refl, some, List, [], ◌∷◌,
  arith, pos, ok, err, All, Bool-cases, Result-cases, length,
}
use cloud_microservices.Prelude.Dict
use cloud_microservices.Prelude.Dict.{Dict}
use cloud_microservices.Floats.{Floats}
use cloud_microservices.Http.{Httpx}
use cloud_microservices.Shared.Models.{FaultRequest, FaultResponse}
use cloud_microservices.FaultInjector.Injector
use cloud_microservices.FaultInjector.Injector.{
  Docker, DockerCall, containers_get, container_stop, container_start, FaultState,
}
use cloud_microservices.FaultInjector.Main.{
  allowed_targets, normalise_target, Moment, inject_kill, responded, fault_response, serve,
}
use cloud_microservices.FaultInjector.Main.Kill.{stop_listed, stop_unlisted}
use cloud_microservices.FaultInjector.Main.Safety.{is_listed}
use cloud_microservices.Orchestration.Recovery.{RecoveryWatcher, ServiceRuntime, docker_start_ok}
use cloud_microservices.Orchestration.Recovery.Invariant.{IsWatching}
use cloud_microservices.Orchestration.Recovery.Safety.{Launches}
use cloud_microservices.Orchestration.Recovery.Counting.{occurs}
use cloud_microservices.Orchestration.Recovery.Loop.{Running}
use cloud_microservices.Orchestration.Recovery.Loop.Healing.{IsBehind, watch_over_heals}
use cloud_microservices.System.Chaos.{after_calls, Round, inject, cycles_of, chaos}
use cloud_microservices.System.Chaos.Spares.{
  made, kills, cycles_of-Spares, Harmless-rounds, All-cycles_of, length-cycles_of,
}

module _ (fl : Floats) where
  open fl use {Float}

  stop_sync-stops :
      (d : Docker) (t : String) (running : Running) (o : Injector.Outcome)
      → (Injector.stop_sync d t 5).0 ≡ ok o
      → o.ok ≡ true
      → after_calls (made d (Injector.stop_sync d t 5).1) running t ≡ false
  unfolding Injector.stop_sync Injector.refused after_calls
  stop_sync-stops d t running o e accepted = ground (arith, eq_refl t)

  responded-err :
      {resp : FaultResponse} (utcnow : ℕ) (t : String) (x : Injector.InjectorError)
      → responded {F = Float} utcnow t (err x) ≢ ok (fault_response resp)
  unfolding responded
  responded-err utcnow t (Injector.value_error message) h = cc
  responded-err utcnow t Injector.permission_error h = cc
  responded-err utcnow t (Injector.docker_error message) h = cc

  -- A stop of a listed container that is answered as accepted has stopped it.
  stop-stops :
      (d : Docker) (utcnow : ℕ) (t : String) (running : Running) (resp : FaultResponse)
      → let (result, calls) = Injector.stop d (some allowed_targets) t in
        responded {F = Float} utcnow t result ≡ ok (fault_response resp)
        → resp.accepted ≡ true
        → after_calls (made d calls) running t ≡ false
  unfolding responded
  stop-stops d utcnow t running resp e accepted = elim (Bool-cases (is_listed t)) [
    | inr unlisted ↦ absurd (ground (arith, stop_unlisted d t unlisted))
    | inl listed ↦
        let e' : responded {F = Float} utcnow t (Injector.stop_sync d t 5).0
            ≡ ok (fault_response resp) =
          rw (stop_listed d t listed) at e in
        rw (stop_listed d t listed) (elim (Result-cases (Injector.stop_sync d t 5).0) [
          | inl (o, r) ↦ stop_sync-stops d t running o r (ground arith)
          | inr (x, r) ↦ absurd (responded-err utcnow t x (rw r at e'))
        ])
  ]

  -- only a container of the allow-list can be killed
  pub kill-IsListed :
      (now : Moment) (req : FaultRequest Float) (state : FaultState Float) (resp : FaultResponse)
      → (serve fl now (inject_kill req) state).0 ≡ ok (fault_response resp)
      → is_listed (normalise_target req.target) ≡ true
  unfolding serve responded
  kill-IsListed now req state resp e =
      let t = normalise_target req.target in
      elim (Bool-cases (is_listed t)) [
        | inl listed ↦ listed
        | inr unlisted ↦ absurd (ground (arith, stop_unlisted now.docker t unlisted))
      ]

  kill-stops :
      (now : Moment) (req : FaultRequest Float) (state : FaultState Float) (running : Running)
      (resp : FaultResponse)
      → (serve fl now (inject_kill req) state).0 ≡ ok (fault_response resp)
      → resp.accepted ≡ true
      → after_calls
          (inject fl ((now, inject_kill req) ∷ []) state).1
          running
          (normalise_target req.target)
        ≡ false
  unfolding serve inject
  kill-stops now req state running resp e accepted =
      let t = normalise_target req.target in
      rw append-nil (stop-stops now.docker now.utcnow t running resp e accepted)

  module _ {J : Type 0} (hx : Httpx) (behind : String → String) where
    -- An accepted kill stops its container, whichever others run, and a watcher at any point of
    -- its run, with a threshold of at least 1, that watches the container's service brings it
    -- back within the rounds that are missing to the threshold, if `docker start` works on it,
    -- docker can be started, and no further request kills it. Any other requests may come between
    -- the cycles.
    pub kill-heals :
        (now : Moment) (req : FaultRequest Float) (state : FaultState Float) (running : Running)
        (resp : FaultResponse) (k : String) (m : ℕ) (rounds : List (Round J Float))
        (w : RecoveryWatcher Float) (rt : ServiceRuntime Float)
        → (serve fl now (inject_kill req) state).0 ≡ ok (fault_response resp)
        → resp.accepted ≡ true
        → IsWatching w
        → w.config.failure_threshold ≡ pos (suc m)
        → Dict.get k w.runtimes ≡ some rt
        → rt.target.container ≡ normalise_target req.target
        → 0 < occurs k w.targets
        → IsBehind behind k (normalise_target req.target) w.targets
        → All
            (λ round.
              docker_start_ok (round.attempt (normalise_target req.target)).returncode ≡ true)
            rounds
        → All (λ round. Launches fl round.attempt) rounds
        → All
            (λ round. All (λ i. kills (normalise_target req.target) i.1 ≡ false) round.requests)
            rounds
        → suc m ≤ rt.consecutive_failures + length rounds
        → let (state', calls) = inject fl ((now, inject_kill req) ∷ []) state in
          let running' = after_calls calls running in
          (running' (normalise_target req.target) ≡ false)
          × ((out : RecoveryWatcher Float × Running) × (chaos fl hx behind rounds state' w running'
                ≡ ok out)
              × (out.1 (normalise_target req.target) ≡ true))
    unfolding chaos
    kill-heals now req state running resp k m rounds w rt e accepted v t here own watched b works
          docker spared long =
        let c = normalise_target req.target in
        let (state', calls) = inject fl ((now, inject_kill req) ∷ []) state in
        (
          kill-stops now req state running resp e accepted,
          watch_over_heals fl hx behind k c m (cycles_of fl rounds state') w rt
              (after_calls calls running) v t here own watched b
              (All-cycles_of fl (λ a. docker_start_ok (a c).returncode ≡ true) rounds state' works)
              (All-cycles_of fl (Launches fl) rounds state' docker)
              (cycles_of-Spares fl c rounds state' (Harmless-rounds fl c rounds spared))
              (omega (arith, long, length-cycles_of fl rounds state')),
        )
