-- ===== src/CommandLine/Assigned.antt =====
-- Options that are given as `--name=value`.
use Prim.Native.Char.{Char, code}
use Prim.Native.String
use text.Mathlib.TextLemmas.{nil-append, cons-append}
use cloud_microservices.Prelude.{
  String, ◌≡◌, refl, ap, ◌∙◌, Bool, true, false, not, ◌==◌, eq_iff, none, some, List, [], ◌∷◌,
  arith, all, contains, partition_at, partition_at-append, eq-false_of,
}
use cloud_microservices.Prelude.Dict
use cloud_microservices.Prelude.Dict.{Dict}
use cloud_microservices.CommandLine.{
  Kind, Class, option, value, starts_dash, is_letter, classify, classify_all, consume, given,
}

contains-append :
    (c : Char) (head tail : String)
    → contains (code c) (String.◌++◌ head (String.◌∷◌ c tail)) ≡ true
contains-append c String.[] tail = rw (nil-append (String.◌∷◌ c tail)) (ground arith)
contains-append c (String.◌∷◌ d s) tail =
    rw (cons-append d s (String.◌∷◌ c tail)) (ground (arith, contains-append c s tail))

-- no option has a `=` in its name
abbrev pub lacks_assignment : Dict Kind → Bool
lacks_assignment t = all (λ e. not (contains b'=' e.0)) t

get_of_assignment :
    (t : Dict Kind) (s : String)
    → lacks_assignment t ≡ true
    → contains b'=' s ≡ true
    → Dict.get s t ≡ none
unfolding Dict.get
get_of_assignment [] s h c = refl
get_of_assignment ((name, kind) ∷ t) s h c = ground (arith, eq_iff name s, get_of_assignment t s)

classify_of_assigned :
    (t : Dict Kind) (a name v : String) (kind : Kind)
    → starts_dash a ≡ true
    → is_letter a ≡ false
    → Dict.get a t ≡ none
    → partition_at b'=' a ≡ some (name, v)
    → Dict.get name t ≡ some kind
    → classify t a ≡ option name kind (some v)
unfolding classify
classify_of_assigned t a name v kind dash letter other split g =
    rw (dash, other, letter, split, g) refl

-- `name=value` of an option of at least two characters is taken for that option with that value
pub classify-assigned :
    (t : Dict Kind) (c d : Char) (s v : String) (kind : Kind)
    → let name : String = String.◌∷◌ c (String.◌∷◌ d s) in
      lacks_assignment t ≡ true
      → starts_dash name ≡ true
      → contains b'=' name ≡ false
      → Dict.get name t ≡ some kind
      → classify t (String.◌++◌ name (String.◌∷◌ "=" v)) ≡ option name kind (some v)
classify-assigned t c d s v kind h dash n g =
    let name : String = String.◌∷◌ c (String.◌∷◌ d s) in
    let tail : String = String.◌∷◌ "=" v in
    let argument : String = String.◌++◌ name tail in
    let text : argument ≡ String.◌∷◌ c (String.◌∷◌ d (String.◌++◌ s tail)) =
      cons-append c (String.◌∷◌ d s) tail ∙ ap (String.◌∷◌ c) (cons-append d s tail) in
    classify_of_assigned t argument name v kind (rw text dash) (rw text refl)
      (get_of_assignment t argument h (contains-append "=" name v))
      (partition_at-append "=" name v n) g

assignment-not_dashes : (s : String) → contains b'=' s ≡ true → s == "--" ≡ false
assignment-not_dashes s h = eq-false_of (contains b'=') s "--" (λ e. ground arith)

pub classify_all-assigned :
    (t : Dict Kind) (c d : Char) (s v : String) (kind : Kind) (argv : List String)
    → let name : String = String.◌∷◌ c (String.◌∷◌ d s) in
      let argument = String.◌++◌ name (String.◌∷◌ "=" v) in
      lacks_assignment t ≡ true
      → starts_dash name ≡ true
      → contains b'=' name ≡ false
      → Dict.get name t ≡ some kind
      → classify_all t (argument ∷ argv)
        ≡ (argument, option name kind (some v)) ∷ classify_all t argv
unfolding classify_all
classify_all-assigned t c d s v kind argv h dash n g =
    let name : String = String.◌∷◌ c (String.◌∷◌ d s) in
    let argument = String.◌++◌ name (String.◌∷◌ "=" v) in
    rw
      (
        assignment-not_dashes argument (contains-append "=" name v),
        classify-assigned t c d s v kind h dash n g,
      )
      refl

-- a value that its type accepts is kept, unless it is `--`
pub consume-assigned :
    (name argument v : String) (accepts : String → Bool) (classes : List (String × Class))
    → v == "--" ≡ false
    → accepts v ≡ true
    → consume false ((argument, option name (value accepts) (some v)) ∷ classes)
      ≡ given (name, some v) (consume false classes)
unfolding consume
consume-assigned name argument v accepts classes plain ok = rw (plain, ok) refl
