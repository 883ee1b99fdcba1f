-- ===== src/Monitoring/LogAggregator/Main/Ends.antt =====
-- monitoring/log_aggregator.py: the child of `_amain` has ended when `_amain` has.
use cloud_microservices.Prelude.{
  String, ◌≡◌, ◌⊎◌, false, Option, none, some, List, [], ◌∷◌, ◌++◌, map, ℤ,
}
use cloud_microservices.Shared.Env.{Env}
use cloud_microservices.Monitoring.LogAggregator.{Json, aggregate}
use cloud_microservices.Monitoring.LogAggregator.Main.{
  reading, raises, silent, AggregatorOptions, Effect, spawned, logged, terminated, killed, Child,
  Exit, exited, raised, compose_logs, is_stopped,
}

-- How a child ends, by which signals, with which exit code: by itself, by `terminate` within 5 seconds,
-- or, only if it outlives them, by `kill`.
pub data EndsBy {J : Type 0} (child : Child) : List (Effect J) → ℤ → Type 0 where
  itself : {code : ℤ} → child.returncode ≡ some code → EndsBy child [] code
  asked :
      {code : ℤ}
      → child.returncode ≡ none
      → child.on_terminate ≡ some code
      → EndsBy child (terminated ∷ []) code
  forced :
      child.returncode ≡ none
      → child.on_terminate ≡ none
      → EndsBy child (terminated ∷ killed ∷ []) child.on_kill

-- how the loop ends, if the child has come to this exit code: with it, or by an exception behind the lines
abbrev pub EndsAs : Child → ℤ → Exit → Type 0
EndsAs child code exit =
    (exit ≡ exited code)
    ⊎ ((message : String) × (is_stopped child.lines ≡ false)
        × (child.behind ≡ raises message)
        × (exit ≡ raised message))

module _ {J : Type 0} (loads : String → Option (Json J)) where
  -- how `_amain` ends behind its logger, and what it has done
  abbrev pub ChildEnds : Option String → AggregatorOptions → Child → Exit × List (Effect J) → Type 0
  ChildEnds which opts child (exit, effects) =
      (code : ℤ) × (signals : List (Effect J)) × EndsBy child signals code
      × (effects
          ≡ spawned (compose_logs which opts) ∷ map logged (aggregate loads child.lines) ++ signals)
      × EndsAs child code exit

  -- or it waits for a child that prints nothing and keeps its output open, with its lines logged and no signal
  abbrev pub Waits : Option String → AggregatorOptions → Child → Exit × List (Effect J) → Type 0
  Waits which opts child run =
      (is_stopped child.lines ≡ false)
      × (child.behind ≡ silent)
      × (run
          ≡ (reading, spawned (compose_logs which opts) ∷ map logged (aggregate loads child.lines)))
