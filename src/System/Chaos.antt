-- ===== src/System/Chaos.antt =====
-- services/fault-injector/app/main.py and orchestration/recovery.py, which act on the same
-- containers: between two poll cycles of the watcher any requests may reach the injector.
pub mod Spares
pub mod Healed
pub mod Unlisted
pub mod Fleet
pub mod Kills
use cloud_microservices.Prelude.{
  String, Bool, true, false, ◌&&◌, ◌||◌, ◌==◌, List, [], ◌∷◌, ◌++◌, map, if◌then◌else◌, Result,
  is_ok,
}
use cloud_microservices.Floats.{Floats}
use cloud_microservices.Http.{Exchange, Httpx}
use cloud_microservices.FaultInjector.Injector.{
  Docker, DockerCall, containers_get, container_stop, container_start, FaultState,
}
use cloud_microservices.FaultInjector.Main.{Moment, Request, serve}
use cloud_microservices.Orchestration.Recovery.{RecoveryWatcher, Attempt, WatchError}
use cloud_microservices.Orchestration.Recovery.Loop.{Running, Cycle, watch_over}

-- what a call of the injector does to the containers, by what docker makes of it
unfoldable pub after_call : Docker → DockerCall → Running → Running
after_call d (containers_get t) running c = running c
after_call d (container_stop t timeout) running c =
    if t == c && is_ok (d.stop t timeout) then false else running c
after_call d (container_start t) running c = running c || t == c && is_ok (d.start t)

unfoldable pub after_calls : List (Docker × DockerCall) → Running → Running
unfolding after_call
after_calls [] running = running
after_calls ((d, call) ∷ calls) running = after_calls calls (after_call d call running)

-- One round: the requests that reach the injector, each at its moment, and the poll
-- cycle of the watcher behind them.
pub record Round (J F : Type 0) : Type 0 where
  pub requests : List (Moment × Request F)
  pub answers : String → Exchange J
  pub attempt : String → Attempt F

module _ (fl : Floats) where
  open fl use {Float}

  -- the faults behind some requests, and the calls that these have made
  unfoldable pub inject :
      List (Moment × Request Float)
      → FaultState Float
      → FaultState Float × List (Docker × DockerCall)
  inject [] state = (state, [])
  inject ((now, request) ∷ requests) state =
      let (_, state', calls) = serve fl now request state in
      let (state'', later) = inject requests state' in
      (state'', map (λ call. (now.docker, call)) calls ++ later)

  -- the rounds as the watcher meets them
  unfoldable pub cycles_of :
      {J : Type 0} → List (Round J Float) → FaultState Float → List (Cycle J Float)
  unfolding inject after_calls
  cycles_of [] state = []
  cycles_of (round ∷ rounds) state =
      let (state', calls) = inject round.requests state in
      record { meanwhile = after_calls calls; answers = round.answers; attempt = round.attempt }
      ∷ cycles_of rounds state'

  module _ {J : Type 0} (hx : Httpx) (behind : String → String) where
    -- the two services over the same containers
    unfoldable pub chaos :
        List (Round J Float)
        → FaultState Float
        → RecoveryWatcher Float
        → Running
        → Result WatchError (RecoveryWatcher Float × Running)
    unfolding cycles_of watch_over
    chaos rounds state w running = watch_over fl hx behind (cycles_of rounds state) w running
