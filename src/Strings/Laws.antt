-- ===== src/Strings/Laws.antt =====
-- strings.Contains against its meaning, and what lower-casing does to it.
use Prim.Native.Char.{Char, code}
use Prim.Native.String
use mathlib.Core.Path.{subst}
use text.Mathlib.TextLemmas.{nil-append, cons-append}
use text.Mathlib.TextEquality.{Char-path}
use feedreader.Prelude.{
  String, ◌≡◌, ◌↔◌, refl, sym, ap, ◌∙◌, true, nat_eq, nat_eq_iff, Bool-cases, inl, inr, and_true,
  arith,
}
use feedreader.Strings.{TextTools, has_prefix, contains, to_lower}

infixr 65 ◌<>◌
abbrev pub ◌<>◌ : String → String → String
s <> t = String.◌++◌ s t

-- `t` starts `s`
abbrev pub Starts : String → String → Type 0
Starts s t = (rest : String) × (s ≡ t <> rest)

-- `t` stands somewhere in `s`
abbrev pub Occurs : String → String → Type 0
Occurs s t = (front rest : String) × (s ≡ front <> (t <> rest))

has_prefix-Starts : (s t : String) → has_prefix s t ≡ true → Starts s t
unfolding has_prefix
has_prefix-Starts s String.[] h = (s, sym (nil-append s))
has_prefix-Starts String.[] (String.◌∷◌ d t) h = absurd (cc)
has_prefix-Starts (String.◌∷◌ c s) (String.◌∷◌ d t) h =
    let (tail, same) = and_true (has_prefix s t) (nat_eq (code c) (code d)) h in
    let (rest, e) = has_prefix-Starts s t tail in
    let e' : c ≡ d = Char-path c d ((nat_eq_iff (code c) (code d)).0 same) in
    (rest, (λ i. String.◌∷◌ (e' i) (e i)) ∙ sym (cons-append d t rest))

has_prefix-append : (t rest : String) → has_prefix (t <> rest) t ≡ true
unfolding has_prefix
has_prefix-append String.[] rest = refl
has_prefix-append (String.◌∷◌ d t) rest = rw cons-append (ground (arith, has_prefix-append t rest))

contains-Occurs : (s t : String) → contains s t ≡ true → Occurs s t
unfolding contains
contains-Occurs String.[] t h =
    let (rest, e) = has_prefix-Starts String.[] t h in (String.[], rest, e ∙ sym (nil-append _))
contains-Occurs (String.◌∷◌ c s) t h = elim (Bool-cases (has_prefix (String.◌∷◌ c s) t)) [
  | inl here ↦
      let (rest, e) = has_prefix-Starts (String.◌∷◌ c s) t here in
      (String.[], rest, e ∙ sym (nil-append _))
  | inr later ↦
      let (front, rest, e) = contains-Occurs s t (ground arith) in
      (String.◌∷◌ c front, rest, ap (String.◌∷◌ c) e ∙ sym (cons-append c front _))
]

contains_of_prefix : (s t : String) → has_prefix s t ≡ true → contains s t ≡ true
unfolding contains
contains_of_prefix String.[] t h = h
contains_of_prefix (String.◌∷◌ c s) t h = ground arith

contains_of_append : (front t rest : String) → contains (front <> (t <> rest)) t ≡ true
unfolding contains
contains_of_append String.[] t rest =
    rw nil-append (contains_of_prefix (t <> rest) t (has_prefix-append t rest))
contains_of_append (String.◌∷◌ c front) t rest =
    rw cons-append (ground (arith, contains_of_append front t rest))

-- a text contains another exactly when it is that text with something before and after
pub contains-Occurs_iff : (s t : String) → (contains s t ≡ true) ↔ Occurs s t
contains-Occurs_iff s t = (
  contains-Occurs s t,
  λ (front, rest, e). subst (λ x. contains x t ≡ true) (sym e) (contains_of_append front t rest),
)

-- lower-casing twice is lower-casing once, if that holds of every rune
pub to_lower_twice :
    (tools : TextTools) (s : String)
    → ((c : Char) → tools.to_lower_rune (tools.to_lower_rune c) ≡ tools.to_lower_rune c)
    → to_lower tools (to_lower tools s) ≡ to_lower tools s
unfolding to_lower
to_lower_twice tools String.[] h = refl
to_lower_twice tools (String.◌∷◌ c s) h = λ i. String.◌∷◌ (h c i) (to_lower_twice tools s h i)
