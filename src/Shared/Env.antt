-- ===== src/Shared/Env.antt =====
-- shared/utils.py: `env_str`, `env_int`, `env_float`. The environment is a function from names to
-- values; the warnings that a bad value logs are left out.
pub mod Decimals
use Prim.Native.Nat.{◌-◌}
use Prim.Native.Char.{code}
use cloud_microservices.Prelude.{
  ℕ, zero, suc, ◌+◌, ◌*◌, ◌≡◌, refl, String, Bool, true, false, ◌&&◌, Option, none, some, eqb, leb,
  if◌then◌else◌, ℤ, pos, negsuc, is_empty, strip,
}
use cloud_microservices.Floats.{Floats}

-- `os.getenv`
abbrev pub Env : Type 0
Env = String → Option String

unfoldable pub env_str : Env → String → String → String
env_str getenv name default = elim (getenv name) [
  | none ↦ default
  | some value ↦ if is_empty value then default else value
]

-- The digits of `int(s)`; one underscore may stand between two digits, and a digit comes last.
unfoldable pub digits_from : ℕ → Bool → String → Option ℕ
digits_from n after_digit String.[] = if after_digit then some n else none
digits_from n after_digit (String.◌∷◌ c s) =
    let more = digits_from (n * 10 + (code c - 48)) true s in
    let next = digits_from n false s in
    if leb 48 (code c) && leb (code c) 57
    then more
    else if eqb (code c) 95 && after_digit
    then next
    else none

abbrev pub negated : ℕ → ℤ
negated zero = pos 0
negated (suc n) = negsuc n

abbrev pub map_sign : (ℕ → ℤ) → Option ℕ → Option ℤ
map_sign f none = none
map_sign f (some n) = some (f n)

unfoldable pub signed : String → Option ℤ
unfolding digits_from
signed String.[] = none
signed (String.◌∷◌ c s) =
    if eqb (code c) b'-'
    then map_sign negated (digits_from 0 false s)
    else if eqb (code c) b'+'
    then map_sign pos (digits_from 0 false s)
    else map_sign pos (digits_from 0 false (String.◌∷◌ c s))

-- `int(s)` on a text of ASCII, which raises `ValueError` where this has no value
unfoldable pub int_of : String → Option ℤ
unfolding signed strip
int_of s = signed (strip s)

abbrev pub or_default {ℓ} : {A : Type ℓ} → A → Option A → A
or_default default none = default
or_default default (some a) = a

-- The value when it is there, is not empty and parses, and the default otherwise.
unfoldable pub env_int : Env → String → ℤ → ℤ
env_int getenv name default = elim (getenv name) [
  | none ↦ default
  | some raw ↦ if is_empty raw then default else or_default default (int_of raw)
]

unfoldable pub env_float : (fl : Floats) → Env → String → fl.Float → fl.Float
env_float fl getenv name default = elim (getenv name) [
  | none ↦ default
  | some raw ↦ if is_empty raw then default else or_default default (fl.parse raw)
]

int_of_examples :
    (int_of " -1_0 " ≡ some (negsuc 9))
    × (int_of "8_" ≡ none)
    × (int_of "x1" ≡ none)
    × (int_of "" ≡ none)
unfolding int_of
int_of_examples = (refl, refl, refl, refl)
