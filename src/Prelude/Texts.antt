-- ===== src/Prelude/Texts.antt =====
-- What the programs do with a text, character by character: `str` is the native `String`.
use Prim.Native.Nat.{ℕ, zero, suc, ◌-◌, ◌/◌, ◌%◌}
use Prim.Native.Char.{Char, code}
use Prim.Native.String
use Prim.Native.String.{String, [], ◌∷◌}
use mathlib.Core.Option.{Option, none, some}
use mathlib.Core.Bool.{Bool, true, false, ◌||◌, ◌&&◌}
use cloud_microservices.Prelude.Tests.{eqb, leb, ltb, if◌then◌else◌}
use cloud_microservices.Prelude.Ints.{ℤ, pos, negsuc}

-- `not s` for a text
abbrev pub is_empty : String → Bool
is_empty [] = true
is_empty (c ∷ s) = false

-- `str.isspace` on a character of ASCII
abbrev pub is_space : Char → Bool
is_space c =
    eqb (code c) 32 || leb 9 (code c) && leb (code c) 13 || leb 28 (code c) && leb (code c) 31

-- `s.lstrip()`
unfoldable pub lstrip : String → String
lstrip [] = []
lstrip (c ∷ s) = let rest = lstrip s in if is_space c then rest else c ∷ s

-- `s.rstrip()`
unfoldable pub rstrip : String → String
rstrip [] = []
rstrip (c ∷ s) = let rest = rstrip s in if is_space c && is_empty rest then [] else c ∷ rest

-- `s.strip()`
unfoldable pub strip : String → String
unfolding lstrip rstrip
strip s = rstrip (lstrip s)

-- the character of a decimal digit
abbrev pub digit : ℕ → Char
digit zero = "0"
digit (suc zero) = "1"
digit (suc (suc zero)) = "2"
digit (suc (suc (suc zero))) = "3"
digit (suc (suc (suc (suc zero)))) = "4"
digit (suc (suc (suc (suc (suc zero))))) = "5"
digit (suc (suc (suc (suc (suc (suc zero)))))) = "6"
digit (suc (suc (suc (suc (suc (suc (suc zero))))))) = "7"
digit (suc (suc (suc (suc (suc (suc (suc (suc zero)))))))) = "8"
digit _ = "9"

-- the decimal digits of `n` in front of `acc`; a number has fewer digits than its value plus one
unfoldable pub digits_before : ℕ → ℕ → String → String
digits_before zero n acc = acc
digits_before (suc fuel) n acc =
    let rest = digits_before fuel (n / 10) (digit (n % 10) ∷ acc) in
    if ltb n 10 then digit n ∷ acc else rest

-- `str(n)`
unfoldable pub str_ℕ : ℕ → String
unfolding digits_before
str_ℕ n = digits_before (suc n) n []

unfoldable pub str_ℤ : ℤ → String
unfolding str_ℕ
str_ℤ (pos n) = str_ℕ n
str_ℤ (negsuc n) = "-" ∷ str_ℕ (suc n)

-- `s.partition(sep)` for a character with the code `sep`, with no value where it does not occur
unfoldable pub partition_at : ℕ → String → Option (String × String)
partition_at sep [] = none
partition_at sep (c ∷ s) =
    let rest = partition_at sep s in
    if eqb (code c) sep
    then some ([], s)
    else elim rest [ none ↦ none | some (head, tail) ↦ some (c ∷ head, tail) ]

-- a character with the code `sep` occurs in `s`
abbrev pub contains : ℕ → String → Bool
contains sep [] = false
contains sep (c ∷ s) = eqb (code c) sep || contains sep s

-- `s` begins with `t`, and what follows
abbrev pub is_prefix : String → String → Bool
is_prefix [] s = true
is_prefix (c ∷ t) [] = false
is_prefix (c ∷ t) (d ∷ s) = eqb (code c) (code d) && is_prefix t s

-- the characters of a text
abbrev pub chars : String → ℕ
chars [] = 0
chars (c ∷ s) = suc (chars s)

-- `s.replace(old, new)` for an `old` of at least one character, behind `skip` characters that are dropped
unfoldable pub replace_from : String → String → ℕ → String → String
replace_from old new skip [] = []
replace_from old new (suc skip) (c ∷ s) = replace_from old new skip s
replace_from old new zero (c ∷ s) =
    let replaced = replace_from old new (chars old - 1) s in
    let next = replace_from old new zero s in
    if is_prefix old (c ∷ s) then String.◌++◌ new replaced else c ∷ next

-- `s.replace(old, new)`
unfoldable pub replace : String → String → String → String
unfolding replace_from
replace old new s = replace_from old new 0 s
