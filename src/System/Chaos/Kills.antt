-- ===== src/System/Chaos/Kills.antt =====
-- services/fault-injector/app/main.py and orchestration/recovery.py with the services of the
-- repository.
use cloud_microservices.Prelude.{
  ℕ, suc, ◌≤◌, String, ◌≡◌, Option, true, false, List, [], ◌∷◌, arith, pos, ok, All, length,
}
use cloud_microservices.Floats.{Floats}
use cloud_microservices.Http.{Httpx}
use cloud_microservices.Shared.Env.{Env}
use cloud_microservices.Shared.Models.{FaultRequest, FaultResponse}
use cloud_microservices.FaultInjector.Injector.{FaultState}
use cloud_microservices.FaultInjector.Main.{
  normalise_target, Moment, inject_kill, fault_response, serve,
}
use cloud_microservices.Orchestration.Targets.{default_targets}
use cloud_microservices.Orchestration.Recovery.{RecoveryWatcher, docker_start_ok, from_env, init}
use cloud_microservices.Orchestration.Recovery.Start.{init-IsWatching}
use cloud_microservices.Orchestration.Recovery.Safety.{Launches}
use cloud_microservices.Orchestration.Recovery.Loop.{Running}
use cloud_microservices.System.Chaos.{Round, inject, after_calls, chaos}
use cloud_microservices.System.Chaos.Healed.{kill-IsListed, kill-heals}
use cloud_microservices.System.Chaos.Spares.{kills}
use cloud_microservices.System.Chaos.Fleet.{AreBehind, Names-IsBehind, listed-IsServiceOf}

module _ (fl : Floats) where
  open fl use {Float}

  -- Whatever container of the repository the injector agrees to kill, it is down, and the watcher
  -- that `_amain` starts brings it back within as many rounds as its threshold of at least 1
  -- says, if each probe reaches its own container, `docker start` works on the container, docker
  -- can be started and no further request kills it.
  pub kill-heals_of_default :
      {J : Type 0} (hx : Httpx) (behind : String → String) (env : Env) (which : Option String)
      (m : ℕ) (now : Moment) (req : FaultRequest Float) (state : FaultState Float)
      (running : Running) (resp : FaultResponse) (rounds : List (Round J Float))
      → (from_env fl env which).failure_threshold ≡ pos (suc m)
      → AreBehind behind (default_targets env)
      → (serve fl now (inject_kill req) state).0 ≡ ok (fault_response resp)
      → resp.accepted ≡ true
      → All
          (λ round. docker_start_ok (round.attempt (normalise_target req.target)).returncode ≡ true)
          rounds
      → All (λ round. Launches fl round.attempt) rounds
      → All
          (λ round. All (λ i. kills (normalise_target req.target) i.1 ≡ false) round.requests)
          rounds
      → suc m ≤ length rounds
      → let (state', calls) = inject fl ((now, inject_kill req) ∷ []) state in
        let running' = after_calls calls running in
        let w = init (default_targets env) (from_env fl env which) in
        (running' (normalise_target req.target) ≡ false)
        × ((out : RecoveryWatcher Float × Running) × (chaos fl hx behind rounds state' w running'
              ≡ ok out)
            × (out.1 (normalise_target req.target) ≡ true))
  unfolding init
  kill-heals_of_default hx behind env which m now req state running resp rounds threshold b e
        accepted works docker spared long =
      let config = from_env fl env which in
      let targets = default_targets env in
      let c = normalise_target req.target in
      let (k, (rt, here, own, watched, names)) =
        listed-IsServiceOf env config c (kill-IsListed fl now req state resp e) in
      kill-heals fl hx behind now req state running resp k m rounds (init targets config) rt e
        accepted (init-IsWatching targets config) threshold here own watched
        (Names-IsBehind behind k c targets b names) works docker spared (omega (arith, long))
