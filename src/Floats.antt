-- ===== src/Floats.antt =====
-- Python's `float`: a type and the operations that the programs use, with no law assumed. Every
-- definition and theorem over it holds for the binary64 numbers of the interpreter.
use cloud_microservices.Prelude.{ℕ, String, Bool, Option, List}

pub record Floats : Type 1 where
  pub Float : Type 0
  pub zero : Float
  -- the literal `m` with `k` digits behind its point: `0.2` is `decimal 2 1`
  pub decimal : ℕ → ℕ → Float
  -- `float(n)`, which mixed arithmetic applies to an `int`
  pub of_ℕ : ℕ → Float
  pub add : Float → Float → Float
  pub sub : Float → Float → Float
  pub mul : Float → Float → Float
  pub div : Float → Float → Float
  -- `x ** n`, which raises `OverflowError` where this has no value
  pub pow : Float → ℕ → Option Float
  pub leb : Float → Float → Bool
  pub ltb : Float → Float → Bool
  -- `sum(xs)`
  pub sum : List Float → Float
  -- `round(x, n)`
  pub round : Float → ℕ → Float
  -- `float(s)`, which raises `ValueError` where this has no value
  pub parse : String → Option Float
  -- `str(x)`
  pub show : Float → String
