-- ===== src/Orchestration/Recovery/Loop.antt =====
-- orchestration/recovery.py and the containers that it watches: `docker start` lets a container run, and one that does not
-- run answers no probe. What one that runs answers is an argument.
pub mod Notice
pub mod Healing
use cloud_microservices.Prelude.{
  ℕ, String, Bool, true, false, ◌&&◌, ◌||◌, ◌==◌, List, [], ◌∷◌, any, if◌then◌else◌, Result, ok,
  err, ◌>>=◌,
}
use cloud_microservices.Floats.{Floats}
use cloud_microservices.Http.{Exchange, failed, Httpx}
use cloud_microservices.Orchestration.Recovery.{
  RecoveryWatcher, Action, docker_start, Attempt, Poll, WatchError, docker_start_ok, tick,
}

-- which containers run
abbrev pub Running : Type 0
Running = String → Bool

-- What one cycle meets, apart from the containers that are down: `meanwhile` is what others do to the
-- containers before it.
pub record Cycle (J F : Type 0) : Type 0 where
  pub meanwhile : Running → Running
  pub answers : String → Exchange J
  pub attempt : String → Attempt F

module _ {F : Type 0} where
  -- the containers that the watcher starts, in order
  unfoldable pub starts : List (Action F) → List String
  starts [] = []
  starts (docker_start c ∷ rest) = c ∷ starts rest
  starts (_ ∷ rest) = starts rest

  -- the containers that run once the watcher has acted
  unfoldable pub started : (String → Attempt F) → List (Action F) → Running → Running
  started attempt actions running c =
      running c || any (λ d. d == c && docker_start_ok (attempt d).returncode) (starts actions)

  -- a cycle in which the container behind a URL answers if it runs
  abbrev pub poll_of : {J : Type 0} → (String → String) → Running → Cycle J F → Poll J F
  poll_of behind running cycle = record {
    get = λ url. if running (behind url) then cycle.answers url else failed "connection refused";
    attempt = cycle.attempt;
    stop_requested = false;
  }

module _ (fl : Floats) {J : Type 0} (hx : Httpx) (behind : String → String) where
  open fl use {Float}

  -- the loop of `run` while no stop is requested, with the containers that it acts on
  unfoldable pub watch_over :
      List (Cycle J Float)
      → RecoveryWatcher Float
      → Running
      → Result WatchError (RecoveryWatcher Float × Running)
  watch_over [] w running = ok (w, running)
  watch_over (cycle ∷ cycles) w running = do
    let before = cycle.meanwhile running
    (w', actions) ← tick fl hx w (poll_of behind before cycle)
    watch_over cycles w' (started cycle.attempt actions before)
