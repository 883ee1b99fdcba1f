-- ===== src/Shared/Env/Decimals.antt =====
-- shared/utils.py: `int(s)` reads back what `str(n)` prints.
use Prim.Native.Char.{Char}
use cloud_microservices.Prelude.{
  ℕ, zero, suc, ◌+◌, ◌*◌, ◌/◌, ◌%◌, ◌<◌, ◌≡◌, refl, ap, ◌∙◌, String, Bool, true, false, not, ◌&&◌,
  none, some, inl, inr, arith, ltb, Bool-cases, ltb→lt, ltb-false→le, ℤ, pos, negsuc, strip, lstrip,
  rstrip, is_space, digit, digits_before, str_ℕ, str_ℤ,
}
use cloud_microservices.Shared.Env.{Env, digits_from, negated, map_sign, signed, int_of, env_int}

digits_from-digit :
    (m d : ℕ) (after : Bool) (s : String)
    → d < 10
    → digits_from m after (String.◌∷◌ (digit d) s) ≡ digits_from (m * 10 + d) true s
unfolding digits_from
digits_from-digit m zero after s h = refl
digits_from-digit m (suc zero) after s h = refl
digits_from-digit m (suc (suc zero)) after s h = refl
digits_from-digit m (suc (suc (suc zero))) after s h = refl
digits_from-digit m (suc (suc (suc (suc zero)))) after s h = refl
digits_from-digit m (suc (suc (suc (suc (suc zero))))) after s h = refl
digits_from-digit m (suc (suc (suc (suc (suc (suc zero)))))) after s h = refl
digits_from-digit m (suc (suc (suc (suc (suc (suc (suc zero))))))) after s h = refl
digits_from-digit m (suc (suc (suc (suc (suc (suc (suc (suc zero)))))))) after s h = refl
digits_from-digit m (suc (suc (suc (suc (suc (suc (suc (suc (suc zero))))))))) after s h = refl
digits_from-digit m (suc (suc (suc (suc (suc (suc (suc (suc (suc (suc d)))))))))) after s h =
    absurd (omega arith)

digits_from-digits_before :
    (fuel n : ℕ) (s : String)
    → n < fuel
    → digits_from 0 false (digits_before fuel n s) ≡ digits_from n true s
unfolding digits_before
digits_from-digits_before zero n s h = absurd (omega arith)
digits_from-digits_before (suc fuel) n s h = elim (Bool-cases (ltb n 10)) [
  | inl small ↦ rw small (
      digits_from-digit 0 n false s (ltb→lt n 10 small)
      ∙ ap (λ k. digits_from k true s) (omega arith))
  | inr large ↦ rw large (
      digits_from-digits_before fuel (n / 10) (String.◌∷◌ (digit (n % 10)) s)
        (omega (arith, ltb-false→le n 10 large))
      ∙ digits_from-digit (n / 10) (n % 10) true s (omega arith)
      ∙ ap (λ k. digits_from k true s) (omega arith))
]

-- no character of `s` is a space
abbrev lacks_space : String → Bool
lacks_space String.[] = true
lacks_space (String.◌∷◌ c s) = not (is_space c) && lacks_space s

rstrip_of_lacks : (s : String) → lacks_space s ≡ true → rstrip s ≡ s
unfolding rstrip
rstrip_of_lacks String.[] h = refl
rstrip_of_lacks (String.◌∷◌ c s) h = ground (arith, rstrip_of_lacks s)

strip_of_lacks : (s : String) → lacks_space s ≡ true → strip s ≡ s
unfolding strip lstrip
strip_of_lacks String.[] h = rstrip_of_lacks "" h
strip_of_lacks (String.◌∷◌ c s) h = rw (head_of c s h) (rstrip_of_lacks (String.◌∷◌ c s) h)
  where
    head_of : (c : Char) (s : String) → lacks_space (String.◌∷◌ c s) ≡ true → is_space c ≡ false
    head_of c s h = ground arith

digit-not_space : (d : ℕ) → is_space (digit d) ≡ false
digit-not_space zero = refl
digit-not_space (suc zero) = refl
digit-not_space (suc (suc zero)) = refl
digit-not_space (suc (suc (suc zero))) = refl
digit-not_space (suc (suc (suc (suc zero)))) = refl
digit-not_space (suc (suc (suc (suc (suc zero))))) = refl
digit-not_space (suc (suc (suc (suc (suc (suc zero)))))) = refl
digit-not_space (suc (suc (suc (suc (suc (suc (suc zero))))))) = refl
digit-not_space (suc (suc (suc (suc (suc (suc (suc (suc zero)))))))) = refl
digit-not_space (suc (suc (suc (suc (suc (suc (suc (suc (suc d))))))))) = refl

digit-lacks_space :
    (d : ℕ) (s : String) → lacks_space s ≡ true → lacks_space (String.◌∷◌ (digit d) s) ≡ true
digit-lacks_space d s h = rw (digit-not_space d, h) refl

digits_before-lacks_space :
    (fuel n : ℕ) (s : String) → lacks_space s ≡ true → lacks_space (digits_before fuel n s) ≡ true
unfolding digits_before
digits_before-lacks_space zero n s h = h
digits_before-lacks_space (suc fuel) n s h = elim (Bool-cases (ltb n 10)) [
  | inl small ↦ rw small (digit-lacks_space n s h)
  | inr large ↦ rw large (
      digits_before-lacks_space fuel (n / 10) (String.◌∷◌ (digit (n % 10)) s)
        (digit-lacks_space (n % 10) s h))
]

digits_from-str_ℕ : (n : ℕ) → digits_from 0 false (str_ℕ n) ≡ some n
unfolding str_ℕ digits_from
digits_from-str_ℕ n = digits_from-digits_before (suc n) n "" (omega arith)

signed_of_digits : (s : String) (n : ℕ) → digits_from 0 false s ≡ some n → signed s ≡ some (pos n)
unfolding signed digits_from
signed_of_digits String.[] n h = ground arith
signed_of_digits (String.◌∷◌ c s) n h = ground arith

int_of-signed : (s : String) → lacks_space s ≡ true → int_of s ≡ signed s
unfolding int_of
int_of-signed s h = ap signed (strip_of_lacks s h)

str_ℕ-lacks_space : (n : ℕ) → lacks_space (str_ℕ n) ≡ true
unfolding str_ℕ
str_ℕ-lacks_space n = digits_before-lacks_space (suc n) n "" refl

signed-str_ℤ : (n : ℤ) → signed (str_ℤ n) ≡ some n
unfolding str_ℤ
signed-str_ℤ (pos n) = signed_of_digits (str_ℕ n) n (digits_from-str_ℕ n)
signed-str_ℤ (negsuc n) = unfold signed in ap (map_sign negated) (digits_from-str_ℕ (suc n))

str_ℤ-lacks_space : (n : ℤ) → lacks_space (str_ℤ n) ≡ true
unfolding str_ℤ
str_ℤ-lacks_space (pos n) = str_ℕ-lacks_space n
str_ℤ-lacks_space (negsuc n) = str_ℕ-lacks_space (suc n)

-- `int(str(n))` is `n`, for every integer.
pub int_of-str_ℤ : (n : ℤ) → int_of (str_ℤ n) ≡ some n
int_of-str_ℤ n = int_of-signed (str_ℤ n) (str_ℤ-lacks_space n) ∙ signed-str_ℤ n

int_of-nil : int_of "" ≡ none
unfolding int_of strip lstrip rstrip signed
int_of-nil = refl

env_int-int_of :
    (getenv : Env) (name s : String) (n default : ℤ)
    → getenv name ≡ some s
    → int_of s ≡ some n
    → env_int getenv name default ≡ n
unfolding env_int
env_int-int_of getenv name String.[] n default h i = absurd (ground (arith, int_of-nil))
env_int-int_of getenv name (String.◌∷◌ c s) n default h i = rw (env_int, h, i) refl

-- An integer that is set as Python prints it is the integer that is read, whatever the default.
pub env_int-str_ℤ :
    (getenv : Env) (name : String) (n default : ℤ)
    → getenv name ≡ some (str_ℤ n)
    → env_int getenv name default ≡ n
env_int-str_ℤ getenv name n default h =
    env_int-int_of getenv name (str_ℤ n) n default h (int_of-str_ℤ n)
