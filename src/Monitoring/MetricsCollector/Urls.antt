-- ===== src/Monitoring/MetricsCollector/Urls.antt =====
-- monitoring/metrics_collector.py: the URL of the metrics beside that of the health.
use Prim.Native.String
use Prim.Native.Char.{code}
use text.Mathlib.TextLemmas.{nil-append, cons-append, append_assoc}
use cloud_microservices.Prelude.{
  ℕ, zero, suc, ◌/◌, ◌%◌, String, ◌≡◌, refl, sym, ap, ◌∙◌, inl, inr, false, arith, ℤ, pos, negsuc,
  ltb, eqb, str_ℕ, str_ℤ, digit, digits_before, replace, contains, Bool-cases,
}
use cloud_microservices.Orchestration.Targets.{ServiceTarget, url}
use cloud_microservices.Monitoring.MetricsCollector.{metrics_url}

digit-not_slash : (d : ℕ) → eqb (code (digit d)) b'/' ≡ false
digit-not_slash zero = refl
digit-not_slash (suc zero) = refl
digit-not_slash (suc (suc zero)) = refl
digit-not_slash (suc (suc (suc zero))) = refl
digit-not_slash (suc (suc (suc (suc zero)))) = refl
digit-not_slash (suc (suc (suc (suc (suc zero))))) = refl
digit-not_slash (suc (suc (suc (suc (suc (suc zero)))))) = refl
digit-not_slash (suc (suc (suc (suc (suc (suc (suc zero))))))) = refl
digit-not_slash (suc (suc (suc (suc (suc (suc (suc (suc zero)))))))) = refl
digit-not_slash (suc (suc (suc (suc (suc (suc (suc (suc (suc d))))))))) = refl

digit-no_slash :
    (d : ℕ) (s : String) → contains b'/' s ≡ false → contains b'/' (String.◌∷◌ (digit d) s) ≡ false
digit-no_slash d s h = rw (digit-not_slash d) h

digits_before-no_slash :
    (fuel n : ℕ) (s : String)
    → contains b'/' s ≡ false
    → contains b'/' (digits_before fuel n s) ≡ false
unfolding digits_before
digits_before-no_slash zero n s h = h
digits_before-no_slash (suc fuel) n s h = elim (Bool-cases (ltb n 10)) [
  | inl small ↦ rw small (digit-no_slash n s h)
  | inr large ↦ rw large (
      digits_before-no_slash fuel (n / 10) (String.◌∷◌ (digit (n % 10)) s)
        (digit-no_slash (n % 10) s h))
]

str_ℤ-no_slash : (n : ℤ) → contains b'/' (str_ℤ n) ≡ false
unfolding str_ℤ str_ℕ
str_ℤ-no_slash (pos n) = digits_before-no_slash (suc n) n "" refl
str_ℤ-no_slash (negsuc n) = digits_before-no_slash (suc (suc n)) (suc n) "" refl

-- what stands before the first slash is left alone
replace-append :
    (head tail : String)
    → contains b'/' head ≡ false
    → replace "/health" "/metrics" (String.◌++◌ head tail)
      ≡ String.◌++◌ head (replace "/health" "/metrics" tail)
unfolding replace
replace-append String.[] tail h =
    rw (nil-append tail, nil-append (replace "/health" "/metrics" tail)) refl
replace-append (String.◌∷◌ c s) tail h =
    rw (cons-append c s tail, cons-append c s (replace "/health" "/metrics" tail))
      (ground (arith, replace-append s tail))

host_split :
    (s : String)
    → String.◌++◌ "http://127.0.0.1:" s
      ≡ String.◌++◌ "http:" (String.◌∷◌ "/" (String.◌∷◌ "/" (String.◌++◌ "127.0.0.1:" s)))
host_split s =
    append_assoc "http:" "//127.0.0.1:" s
    ∙ ap (String.◌++◌ "http:")
        (cons-append "/" "/127.0.0.1:" s ∙ ap (String.◌∷◌ "/") (cons-append "/" "127.0.0.1:" s))

replace-slashes :
    (s : String)
    → replace "/health" "/metrics" (String.◌∷◌ "/" (String.◌∷◌ "/" (String.◌++◌ "127.0.0.1:" s)))
      ≡ String.◌∷◌ "/" (String.◌∷◌ "/" (replace "/health" "/metrics" (String.◌++◌ "127.0.0.1:" s)))
unfolding replace
replace-slashes s = rw (cons-append "1" "27.0.0.1:" s) refl

-- Behind the health of a service on a port are its metrics.
pub metrics_url-url :
    (target : ServiceTarget) (port : ℤ)
    → target.health_url ≡ url port "/health"
    → metrics_url target ≡ url port "/metrics"
unfolding metrics_url url replace
metrics_url-url target port h =
    let tail = String.◌++◌ (str_ℤ port) "/health" in
    let behind =
      replace-append "127.0.0.1:" tail refl
      ∙ ap (String.◌++◌ "127.0.0.1:")
          (replace-append (str_ℤ port) "/health" (str_ℤ-no_slash port)) in
    ap (replace "/health" "/metrics") (h ∙ host_split tail)
    ∙ replace-append "http:" (String.◌∷◌ "/" (String.◌∷◌ "/" (String.◌++◌ "127.0.0.1:" tail))) refl
    ∙ ap (String.◌++◌ "http:")
        (replace-slashes tail ∙ ap (λ r. String.◌∷◌ "/" (String.◌∷◌ "/" r)) behind)
    ∙ sym (host_split (String.◌++◌ (str_ℤ port) "/metrics"))
