-- ===== src/Shared/Timed.antt =====
-- shared/utils.py: `timed`, the context manager around a block whose calls of the logger are a state.
use cloud_microservices.Prelude.{String, ◌≡◌, refl, List, [], ◌∷◌, ◌++◌, Result}
use cloud_microservices.Floats.{Floats}

-- a line `operation_timed`
pub record TimedLine (F : Type 0) : Type 0 where
  pub op : String
  pub duration_ms : F

-- a block that writes lines, and ends with a value or an exception
abbrev pub Block : Type 0 → Type 0 → Type 0 → Type 0
Block F E A = List (TimedLine F) → Result E A × List (TimedLine F)

module _ (fl : Floats) {E A : Type 0} where
  open fl use {Float}

  -- `async with timed(label):` around a block, from the two readings of the clock; the `finally` block
  -- logs however the block ends
  unfoldable pub timed : String → Float → Float → Block Float E A → Block Float E A
  timed label start stop block lines =
      let (result, written) = block lines in
      let elapsed_ms = fl.mul (fl.sub stop start) (fl.decimal 10000 1) in
      (result, written ++ record { op = label; duration_ms = fl.round elapsed_ms 2 } ∷ [])

  -- Of two blocks, one inside the other, the line of the inner one comes first, and the value or the
  -- exception is that of the block in the middle.
  pub timed-timed :
      (outer inner : String) (t0 t1 t2 t3 : Float) (block : Block Float E A)
      (lines : List (TimedLine Float))
      → let (result, written) = timed outer t0 t3 (timed inner t1 t2 block) lines in
        (result ≡ (block lines).0)
        × ((first second : Float) × (written
              ≡ ((block lines).1 ++ record { op = inner; duration_ms = first } ∷ [])
                ++ record { op = outer; duration_ms = second } ∷ []))
  unfolding timed
  timed-timed outer inner t0 t1 t2 t3 block lines = (refl, (_, _, refl))
