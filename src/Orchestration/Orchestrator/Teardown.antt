-- ===== src/Orchestration/Orchestrator/Teardown.antt =====
-- orchestration/orchestrator.py: the removal of the stack.
use cloud_microservices.Prelude.{
  none, map, ◌⊎◌, pos, ◌≡◌, ◌≢◌, refl, sym, ap, ◌∙◌, inl, inr, Bool, true, false, not, ◌&&◌, List,
  [], ◌∷◌, ◌++◌, arith, if◌then◌else◌, Result, ok, err, Bool-cases,
}
use mathlib.Core.List.{append_assoc}
use cloud_microservices.Floats.{Floats}
use cloud_microservices.Http.{Httpx}
use cloud_microservices.Shared.Logging.Levels.{can_log}
use cloud_microservices.Orchestration.Targets.{default_targets}
use cloud_microservices.Orchestration.Recovery.{Action, WatchError, RecoveryWatcher}
use cloud_microservices.Orchestration.Orchestrator.{
  OrchestratorOptions, Effect, run_compose, watched, watching, World, watched_by, Compose,
  docker_compose, compose_line, logged_lines, close_down, Exit, exited, raised, is_zero, watch,
  supervise, lifecycle, amain,
}
use cloud_microservices.Orchestration.Orchestrator.Wait.{
  NeverDown, NeverDown-append, run_compose-NeverDown, wait_until_healthy-NeverDown,
}
use cloud_microservices.Orchestration.Orchestrator.Lifecycle.{
  compose_fails, opened, watcher_run, waited, exit_of_supervise, exit_of_lifecycle, amain-lifecycle,
}

-- the removal of the stack: the command, and its output as it is logged
abbrev pub removal : {F : Type 0} → Bool → Compose → List (Effect F)
removal tear_down down =
    if tear_down
    then docker_compose ("down" ∷ []) ∷ map (compose_line ("down" ∷ [])) (logged_lines down.output)
    else []

-- what an ended run has done: whatever it did, then the removal of the stack if that is asked for
abbrev pub TakenDown : {F : Type 0} → Bool → Compose → List (Effect F) → Type 0
TakenDown tear_down down es =
    (before : List (Effect _)) × (es ≡ before ++ removal tear_down down) × NeverDown before

effects_of_close_down :
    {F : Type 0} (tear_down : Bool) (down : Compose) (exit : Exit)
    → down.launched ≡ true
    → (close_down {F = F} tear_down down exit).1 ≡ removal tear_down down
unfolding close_down run_compose
effects_of_close_down true down exit there = rw there refl
effects_of_close_down false down exit there = refl

watched_by-TakenDown :
    {F : Type 0} (tear_down : Bool) (down : Compose)
    (r : Result WatchError (RecoveryWatcher F × List (Action F) × Bool))
    → down.launched ≡ true
    → (watched_by tear_down down r).0 ≢ watching
    → TakenDown tear_down down (watched_by tear_down down r).1
watched_by-TakenDown tear_down down (err e) there over =
    ([], effects_of_close_down tear_down down (raised e) there, tt)
watched_by-TakenDown tear_down down (ok (w, actions, true)) there over = (
  watched actions ∷ [],
  ap (λ es. watched actions ∷ es) (effects_of_close_down tear_down down (exited (pos 0)) there),
  tt,
)
watched_by-TakenDown tear_down down (ok (w, actions, false)) there over = absurd (over refl)

module _ (fl : Floats) {J : Type 0} (hx : Httpx) where
  open fl use {Float}

  module _ (opts : OrchestratorOptions) (world : World J Float) where
    abbrev before_watch : Bool × List (Effect Float)
    before_watch = waited fl hx opts world

    watch-TakenDown :
        world.down.launched ≡ true
        → (watch fl hx opts world).0 ≢ watching
        → TakenDown opts.tear_down world.down (watch fl hx opts world).1
    unfolding watch
    watch-TakenDown there over =
        watched_by-TakenDown opts.tear_down world.down (watcher_run fl hx opts world) there over

    supervise-TakenDown :
        world.down.launched ≡ true
        → (supervise fl hx opts world).0 ≢ watching
        → TakenDown opts.tear_down world.down (supervise fl hx opts world).1
    unfolding supervise
    supervise-TakenDown there over =
        let calm =
          wait_until_healthy-NeverDown fl hx (default_targets world.env) world.get (fl.decimal 20 1)
            30 in
        elim (Bool-cases (not before_watch.0 && opts.tear_down)) [
          | inl gone ↦
              let asked : opts.tear_down ≡ true = ground arith in
              (
                before_watch.1,
                rw gone (
                    rw asked (
                      ap (λ es. before_watch.1 ++ es)
                        (effects_of_close_down true world.down (exited (pos 1)) there))),
                calm,
              )
          | inr stays ↦
              let (before, e, n) =
                watch-TakenDown there
                  (λ h. over (exit_of_supervise fl hx opts world ∙ rw stays h)) in
              (
                before_watch.1 ++ before,
                rw stays (
                    ap (λ r. before_watch.1 ++ r) e
                    ∙ sym (append_assoc before_watch.1 before (removal opts.tear_down world.down))),
                NeverDown-append before_watch.1 before calm n,
              )
        ]

    -- what is done before the wait
    abbrev brought_up : List (Effect Float)
    brought_up =
        if opts.bring_up then (run_compose ("up" ∷ "-d" ∷ "--build" ∷ []) world.up).1 else []

    -- `docker compose up` has succeeded, if it is asked for
    abbrev pub IsBroughtUp : Type 0
    IsBroughtUp =
        (opts.bring_up ≡ false)
        ⊎ ((compose_fails world.up ≡ none) × (is_zero world.up.returncode ≡ true))

    exit_of_opened : (exit : Exit) → IsBroughtUp → opened opts.bring_up world.up exit ≡ exit
    exit_of_opened exit (inl stays) = rw stays refl
    exit_of_opened exit (inr (fine, zero')) = elim (Bool-cases opts.bring_up) [
      | inl b ↦ rw b (ground (arith, fine, zero'))
      | inr b ↦ rw b refl
    ]

    effects_of_lifecycle :
        IsBroughtUp → (lifecycle fl hx opts world).1 ≡ brought_up ++ (supervise fl hx opts world).1
    unfolding lifecycle run_compose
    effects_of_lifecycle up = ground arith

    brought_up-NeverDown : NeverDown brought_up
    brought_up-NeverDown = elim (Bool-cases opts.bring_up) [
      | inl brought ↦
          rw brought (run_compose-NeverDown Float ("up" ∷ "-d" ∷ "--build" ∷ []) world.up refl)
      | inr there ↦ rw there tt
    ]

    lifecycle-TakenDown :
        IsBroughtUp
        → world.down.launched ≡ true
        → (lifecycle fl hx opts world).0 ≢ watching
        → TakenDown opts.tear_down world.down (lifecycle fl hx opts world).1
    lifecycle-TakenDown up there over =
        let (before, e, n) = supervise-TakenDown there (λ h. over (
          exit_of_lifecycle fl hx opts world
          ∙ exit_of_opened (supervise fl hx opts world).0 up
          ∙ h)) in
        (
          brought_up ++ before,
          effects_of_lifecycle up
              ∙ ap (λ r. brought_up ++ r) e
              ∙ sym (append_assoc brought_up before (removal opts.tear_down world.down)),
          NeverDown-append brought_up before brought_up-NeverDown n,
        )

    -- A run whose logging can be set up, whose `docker compose up`, if any, has succeeded without an exception, for
    -- whose removal docker can be started, and whose watcher has ended, if it came to watch, has taken the stack down
    -- as its last step and only then, if that is asked for, and otherwise never.
    pub amain-TakenDown :
        can_log world.env ≡ true
        → IsBroughtUp
        → world.down.launched ≡ true
        → (amain fl hx opts world).0 ≢ watching
        → TakenDown opts.tear_down world.down (amain fl hx opts world).1
    amain-TakenDown can up there over =
        let run : amain fl hx opts world ≡ lifecycle fl hx opts world =
          rw (amain-lifecycle fl hx opts world, can) refl in
        rw run (lifecycle-TakenDown up there (λ h. over (ap (λ r. r.0) run ∙ h)))
