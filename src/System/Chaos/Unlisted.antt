-- ===== src/System/Chaos/Unlisted.antt =====
-- services/fault-injector/app/main.py and orchestration/recovery.py: a container off the
-- allow-list.
use cloud_microservices.Prelude.{
  String, ◌≡◌, ap, inl, inr, true, false, ◌==◌, eq_iff, List, [], ◌∷◌, arith, ok, All, Bool-cases,
}
use cloud_microservices.Floats.{Floats}
use cloud_microservices.Http.{Httpx}
use cloud_microservices.FaultInjector.Injector.{
  DockerCall, containers_get, container_stop, container_start, FaultState,
}
use cloud_microservices.FaultInjector.Main.{Moment, Request, serve}
use cloud_microservices.FaultInjector.Main.Safety.{is_listed, IsAllowed, serve-IsAllowed}
use cloud_microservices.Orchestration.Recovery.{RecoveryWatcher}
use cloud_microservices.Orchestration.Recovery.Invariant.{IsWatching}
use cloud_microservices.Orchestration.Recovery.Safety.{Launches}
use cloud_microservices.Orchestration.Recovery.Loop.{Running}
use cloud_microservices.Orchestration.Recovery.Loop.Healing.{watch_over_keeps}
use cloud_microservices.System.Chaos.{Round, cycles_of, chaos}
use cloud_microservices.System.Chaos.Spares.{
  LeavesUp, IsHarmless, AreHarmless, cycles_of-Spares, All-cycles_of,
}

module _ (c : String) (unlisted : is_listed c ≡ false) where
  LeavesUp-of_IsAllowed : (call : DockerCall) → IsAllowed call → LeavesUp c call
  LeavesUp-of_IsAllowed (containers_get t) h = tt
  LeavesUp-of_IsAllowed (container_stop t timeout) h = elim (Bool-cases (t == c)) [
    | inl same ↦ absurd (ground (arith, ap is_listed ((eq_iff t c).0 same)))
    | inr other ↦ other
  ]
  LeavesUp-of_IsAllowed (container_start t) h = tt

  All-LeavesUp : (calls : List DockerCall) → All IsAllowed calls → All (LeavesUp c) calls
  All-LeavesUp [] h = tt
  All-LeavesUp (call ∷ calls) h = (LeavesUp-of_IsAllowed call h.0, All-LeavesUp calls h.1)

  module _ (fl : Floats) where
    open fl use {Float}

    All-IsHarmless : (requests : List (Moment × Request Float)) → All (IsHarmless fl c) requests
    All-IsHarmless [] = tt
    All-IsHarmless ((now, request) ∷ requests) = (
      λ state. All-LeavesUp (serve fl now request state).2 (serve-IsAllowed fl now request state),
      All-IsHarmless requests,
    )

    All-AreHarmless : {J : Type 0} (rounds : List (Round J Float)) → All (AreHarmless fl c) rounds
    All-AreHarmless [] = tt
    All-AreHarmless (round ∷ rounds) = (All-IsHarmless round.requests, All-AreHarmless rounds)

    -- Whatever requests reach the injector, and whatever docker and the services answer, a
    -- container that is not on the allow-list and runs is running still behind every round, if
    -- docker can be started: the rounds end, so the watcher has not been brought down either.
    pub chaos-unlisted :
        {J : Type 0} (hx : Httpx) (behind : String → String) (rounds : List (Round J Float))
        (state : FaultState Float) (w : RecoveryWatcher Float) (running : Running)
        → IsWatching w
        → All (λ round. Launches fl round.attempt) rounds
        → running c ≡ true
        → (out : RecoveryWatcher Float × Running) × (chaos fl hx behind rounds state w running
            ≡ ok out)
          × (out.1 c ≡ true)
    unfolding chaos
    chaos-unlisted hx behind rounds state w running v docker up =
        watch_over_keeps fl hx behind (cycles_of fl rounds state) w running c
          (All-cycles_of fl (Launches fl) rounds state docker)
          (cycles_of-Spares fl c rounds state (All-AreHarmless rounds)) v up
