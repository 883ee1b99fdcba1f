-- ===== src/Tests/Data.antt =====
-- Test data: natural numbers for the floats, and the parts of httpx.
use cloud_microservices.Prelude.{
  ℕ, ◌+◌, ◌-◌, ◌*◌, ◌/◌, ◌^◌, ◌&&◌, none, some, List, [], ◌∷◌, leb, ltb, str_ℕ,
}
use cloud_microservices.Floats.{Floats}
use cloud_microservices.Http.{Exchange, answered, failed, Httpx}
use cloud_microservices.Prelude.Dict.{Dict}

abbrev sum_ℕ : List ℕ → ℕ
sum_ℕ [] = 0
sum_ℕ (x ∷ xs) = x + sum_ℕ xs

abbrev pub naturals : Floats
naturals = record {
  Float = ℕ;
  zero = 0;
  decimal = λ m k. m / 10 ^ k;
  of_ℕ = λ n. n;
  add = λ a b. a + b;
  sub = λ a b. a - b;
  mul = λ a b. a * b;
  div = λ a b. a / b;
  pow = λ a n. some (a ^ n);
  leb = leb;
  ltb = ltb;
  sum = sum_ℕ;
  round = λ a n. a;
  parse = λ s. none;
  show = str_ℕ;
}

abbrev pub httpx : Httpx
httpx = record { is_success = λ code. leb 200 code && leb code 299; describe = λ e. "error" }

-- no service answers
abbrev pub unreachable : {J : Type 0} → Exchange J
unreachable = failed "refused"

-- a service answers with a body
abbrev pub answering : {J : Type 0} → J → Exchange J
answering body = answered (record { status_code = 200; text = "text"; json = some body })

-- an answer of service-b or of cpp-worker with its result
abbrev pub result_body : ℕ → Exchange (Dict ℕ)
result_body n = answering (("result", n) ∷ [])
