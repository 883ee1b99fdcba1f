-- ===== src/Prelude/Splits.antt =====
-- Where a text is split, and texts that a function tells apart.
use Prim.Native.Nat.{ℕ}
use Prim.Native.Char.{Char, code}
use Prim.Native.String.{String, [], ◌∷◌, ◌++◌}
use text.Mathlib.TextLemmas.{nil-append, cons-append}
use mathlib.Core.Path.{◌≡◌, refl, ap}
use mathlib.Core.Logic.{◌≢◌, inl, inr}
use text.Mathlib.Text.{◌==◌}
use text.Mathlib.TextEquality.{eq_iff}
use cloud_microservices.Prelude.Tests.{Bool-cases}
use mathlib.Core.Option.{none, some}
use mathlib.Core.Bool.{false}
use native.Mathlib.Omega.{arith}
use cloud_microservices.Prelude.Texts.{partition_at, contains}

pub partition_at-append :
    (c : Char) (head tail : String)
    → contains (code c) head ≡ false
    → partition_at (code c) (head ++ (c ∷ tail)) ≡ some (head, tail)
unfolding partition_at
partition_at-append c [] tail h = rw (nil-append (c ∷ tail)) (ground arith)
partition_at-append c (d ∷ s) tail h =
    rw (cons-append d s (c ∷ tail)) (ground (arith, partition_at-append c s tail))

pub partition_at-none : (sep : ℕ) (s : String) → contains sep s ≡ false → partition_at sep s ≡ none
unfolding partition_at
partition_at-none sep [] h = refl
partition_at-none sep (c ∷ s) h = ground (arith, partition_at-none sep s)

-- texts that a function tells apart are not the same
pub eq-false_of : {A : Type 0} (f : String → A) (s t : String) → f s ≢ f t → s == t ≡ false
eq-false_of f s t n = elim (Bool-cases (s == t)) [
  | inl same ↦ absurd (n (ap f ((eq_iff s t).0 same)))
  | inr other ↦ other
]
