-- ===== src/System/Chaos/Spares.antt =====
-- services/fault-injector/app/main.py: requests that leave a container running, and the rounds
-- that they make.
use cloud_microservices.Prelude.{
  suc, String, ◌≡◌, refl, ap, Bool, true, false, ◌==◌, some, List, [], ◌∷◌, map, arith, All,
  All-append, length,
}
use cloud_microservices.Floats.{Floats}
use cloud_microservices.FaultInjector.Injector
use cloud_microservices.FaultInjector.Injector.{
  Docker, DockerCall, containers_get, container_stop, container_start, FaultState,
}
use cloud_microservices.FaultInjector.Main.{
  allowed_targets, normalise_target, Moment, Request, inject_kill, inject_restart, inject_latency,
  inject_error, list_faults, slow, broken, target_status, serve,
}
use cloud_microservices.Orchestration.Recovery.{Attempt}
use cloud_microservices.Orchestration.Recovery.Loop.{Running}
use cloud_microservices.Orchestration.Recovery.Loop.Healing.{Spares}
use cloud_microservices.System.Chaos.{after_call, after_calls, Round, inject, cycles_of}

-- a call that does not stop the container
abbrev pub LeavesUp : String → DockerCall → Type 0
LeavesUp c (containers_get t) = Unit
LeavesUp c (container_stop t timeout) = (t == c) ≡ false
LeavesUp c (container_start t) = Unit

after_call_keeps :
    (c : String) (d : Docker) (call : DockerCall) (running : Running)
    → LeavesUp c call
    → running c ≡ true
    → after_call d call running c ≡ true
unfolding after_call
after_call_keeps c d (containers_get t) running spares up = up
after_call_keeps c d (container_stop t timeout) running spares up = rw spares up
after_call_keeps c d (container_start t) running spares up = rw up refl

abbrev Spared : String → Docker × DockerCall → Type 0
Spared c (d, call) = LeavesUp c call

after_calls_keeps :
    (c : String) (calls : List (Docker × DockerCall)) (running : Running)
    → All (Spared c) calls
    → running c ≡ true
    → after_calls calls running c ≡ true
unfolding after_calls
after_calls_keeps c [] running spares up = up
after_calls_keeps c ((d, call) ∷ calls) running spares up =
    after_calls_keeps c calls (after_call d call running) spares.1
      (after_call_keeps c d call running spares.0 up)

-- calls of the injector, with the docker that answers them
abbrev pub made : Docker → List DockerCall → List (Docker × DockerCall)
made d calls = map (λ call. (d, call)) calls

All-made :
    (c : String) (d : Docker) (calls : List DockerCall)
    → All (LeavesUp c) calls
    → All (Spared c) (made d calls)
All-made c d [] h = tt
All-made c d (call ∷ calls) h = (h.0, All-made c d calls h.1)

-- whether a request is to kill the container
abbrev pub kills : {F : Type 0} → String → Request F → Bool
kills c (inject_kill req) = normalise_target req.target == c
kills c _ = false

module _ (fl : Floats) where
  open fl use {Float}

  stop-LeavesUp :
      (c t : String) (d : Docker)
      → (t == c) ≡ false
      → All (LeavesUp c) (Injector.stop d (some allowed_targets) t).1
  unfolding Injector.stop
  stop-LeavesUp c t d h = ground (arith, Injector.stop_sync)

  start-LeavesUp :
      (c t : String) (d : Docker) → All (LeavesUp c) (Injector.start d (some allowed_targets) t).1
  unfolding Injector.start
  start-LeavesUp c t d = ground (arith, Injector.start_sync)

  serve-LeavesUp :
      (c : String) (now : Moment) (request : Request Float) (state : FaultState Float)
      → kills c request ≡ false
      → All (LeavesUp c) (serve fl now request state).2
  unfolding serve
  serve-LeavesUp c now (inject_kill req) state h =
      stop-LeavesUp c (normalise_target req.target) now.docker h
  serve-LeavesUp c now (inject_restart req) state h =
      start-LeavesUp c (normalise_target req.target) now.docker
  serve-LeavesUp c now (inject_latency req) state h = ground arith
  serve-LeavesUp c now (inject_error req) state h = ground arith
  serve-LeavesUp c now list_faults state h = tt
  serve-LeavesUp c now slow state h = tt
  serve-LeavesUp c now (broken draw) state h = ground arith
  serve-LeavesUp c now (target_status name) state h = (tt, tt)

  -- Whatever the state of the faults, a request makes no call that stops the container.
  abbrev pub IsHarmless : String → Moment × Request Float → Type 0
  IsHarmless c (now, request) =
      (state : FaultState Float) → All (LeavesUp c) (serve fl now request state).2

  abbrev pub AreHarmless : {J : Type 0} → String → Round J Float → Type 0
  AreHarmless c round = All (IsHarmless c) round.requests

  inject-Spared :
      (c : String) (requests : List (Moment × Request Float)) (state : FaultState Float)
      → All (IsHarmless c) requests
      → All (Spared c) (inject fl requests state).1
  unfolding inject
  inject-Spared c [] state h = tt
  inject-Spared c ((now, request) ∷ requests) state h =
      let (_, state', calls) = serve fl now request state in
      All-append (Spared c) (made now.docker calls) (inject fl requests state').1
        (All-made c now.docker calls (h.0 state)) (inject-Spared c requests state' h.1)

  module _ {J : Type 0} where
    pub cycles_of-Spares :
        (c : String) (rounds : List (Round J Float)) (state : FaultState Float)
        → All (AreHarmless c) rounds
        → All (Spares c) (cycles_of fl rounds state)
    unfolding cycles_of
    cycles_of-Spares c [] state h = tt
    cycles_of-Spares c (round ∷ rounds) state h = (
      λ running.
          after_calls_keeps c (inject fl round.requests state).1 running
            (inject-Spared c round.requests state h.0),
      cycles_of-Spares c rounds (inject fl round.requests state).0 h.1,
    )

    pub Harmless-rounds :
        (c : String) (rounds : List (Round J Float))
        → All (λ round. All (λ i. kills c i.1 ≡ false) round.requests) rounds
        → All (AreHarmless c) rounds
    Harmless-rounds c [] h = tt
    Harmless-rounds c (round ∷ rounds) h =
        (harmless round.requests h.0, Harmless-rounds c rounds h.1)
      where
        harmless :
            (requests : List (Moment × Request Float))
            → All (λ i. kills c i.1 ≡ false) requests
            → All (IsHarmless c) requests
        harmless [] h = tt
        harmless ((now, request) ∷ requests) h =
            (λ state. serve-LeavesUp c now request state h.0, harmless requests h.1)

    pub All-cycles_of :
        (P : (String → Attempt Float) → Type 0) (rounds : List (Round J Float))
        (state : FaultState Float)
        → All (λ round. P round.attempt) rounds
        → All (λ cycle. P cycle.attempt) (cycles_of fl rounds state)
    unfolding cycles_of
    All-cycles_of P [] state h = tt
    All-cycles_of P (round ∷ rounds) state h =
        (h.0, All-cycles_of P rounds (inject fl round.requests state).0 h.1)

    pub length-cycles_of :
        (rounds : List (Round J Float)) (state : FaultState Float)
        → length (cycles_of fl rounds state) ≡ length rounds
    unfolding cycles_of
    length-cycles_of [] state = refl
    length-cycles_of (round ∷ rounds) state =
        ap suc (length-cycles_of rounds (inject fl round.requests state).0)
