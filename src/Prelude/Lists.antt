-- ===== src/Prelude/Lists.antt =====
-- Lists measured by native numbers, Boolean tests and filters on lists, and predicates by recursion.
use Prim.Native.Nat.{ℕ, suc, ◌+◌, ◌≤◌}
use mathlib.Core.Path.{◌≡◌, refl, sym, ap, ◌∙◌, subst, fun_ext, ap₂}
use mathlib.Core.Logic.{inl, inr, ◌↔◌}
use mathlib.Core.Bool.{Bool, true, false, not, ◌&&◌, ◌||◌}
use mathlib.Core.List.{List, [], ◌∷◌, ◌++◌, map, Memᴰ}
use mathlib.Core.List.Memᴰ.{cases_cons}
use native.Mathlib.Omega.{arith}
use feedreader.Prelude.Tests.{if◌then◌else◌, Bool-cases}

module _ {ℓ} {A : Type ℓ} where
  abbrev pub length : List A → ℕ
  length [] = 0
  length (x ∷ xs) = suc (length xs)

  -- `slices.ContainsFunc`, a loop that returns true at the first hit
  abbrev pub any : (A → Bool) → List A → Bool
  any p [] = false
  any p (x ∷ xs) = p x || any p xs

  abbrev pub all : (A → Bool) → List A → Bool
  all p [] = true
  all p (x ∷ xs) = p x && all p xs

  -- the rows that pass a test, in order
  abbrev pub keep : (A → Bool) → List A → List A
  keep p [] = []
  keep p (x ∷ xs) = let rest = keep p xs in if p x then x ∷ rest else rest

  pub length-append : (xs ys : List A) → length (xs ++ ys) ≡ length xs + length ys
  length-append [] ys = omega arith
  length-append (x ∷ xs) ys = omega (arith, length-append xs ys)

  pub length-keep : (p : A → Bool) (xs : List A) → length (keep p xs) ≤ length xs
  length-keep p [] = omega arith
  length-keep p (x ∷ xs) = ground (arith, length-keep p xs)

  pub any-append : (p : A → Bool) (xs ys : List A) → any p (xs ++ ys) ≡ (any p xs || any p ys)
  any-append p [] ys = refl
  any-append p (x ∷ xs) ys = ground (arith, any-append p xs ys)

  pub any_of_mem : (p : A → Bool) {a : A} {xs : List A} → Memᴰ a xs → p a ≡ true → any p xs ≡ true
  any_of_mem p (Memᴰ.head {x} e) h = ground arith
  any_of_mem p (Memᴰ.tail {x} m) h = ground (arith, any_of_mem p m h)

  pub mem_of_any :
      (p : A → Bool) (xs : List A) → any p xs ≡ true → (a : A) × Memᴰ a xs × (p a ≡ true)
  mem_of_any p [] h = absurd (cc)
  mem_of_any p (x ∷ xs) h = elim (Bool-cases (p x)) [
    | inl e ↦ (x, Memᴰ.head refl, e)
    | inr e ↦ let (a, m, k) = mem_of_any p xs (ground arith) in (a, Memᴰ.tail m, k)
  ]

  pub mem_of_keep :
      (p : A → Bool) {a : A} (xs : List A) → Memᴰ a (keep p xs) → Memᴰ a xs × (p a ≡ true)
  mem_of_keep p [] m = elim m [ ]
  mem_of_keep p {a} (x ∷ xs) m = elim (Bool-cases (p x)) [
    | inl e ↦ elim (cases_cons (subst (Memᴰ a) (rw e) m)) [
      | inl same ↦ (Memᴰ.head same, ap p same ∙ e)
      | inr later ↦ let (k, h) = mem_of_keep p xs later in (Memᴰ.tail k, h)
    ]
    | inr e ↦ let (k, h) = mem_of_keep p xs (subst (Memᴰ a) (rw e) m) in (Memᴰ.tail k, h)
  ]

  pub keep_mem : (p : A → Bool) {a : A} {xs : List A} → Memᴰ a xs → p a ≡ true → Memᴰ a (keep p xs)
  keep_mem p {a} (Memᴰ.head {x} {xs} e) h =
      subst (Memᴰ a) (rw (sym (ap p e) ∙ h)) (Memᴰ.head {xs = keep p xs} e)
  keep_mem p {a} (Memᴰ.tail {x} {xs} m) h = elim (Bool-cases (p x)) [
    | inl e ↦ subst (Memᴰ a) (rw e) (Memᴰ.tail {x = x} (keep_mem p m h))
    | inr e ↦ subst (Memᴰ a) (rw e) (keep_mem p m h)
  ]

  -- exactly the members that pass the test are kept
  pub mem-keep :
      (p : A → Bool) (a : A) (xs : List A) → Memᴰ a (keep p xs) ↔ (Memᴰ a xs × (p a ≡ true))
  mem-keep p a xs = (mem_of_keep p xs, λ h. keep_mem p h.0 h.1)

  pub keep-append : (p : A → Bool) (xs ys : List A) → keep p (xs ++ ys) ≡ keep p xs ++ keep p ys
  keep-append p [] ys = refl
  keep-append p (x ∷ xs) ys = ground (arith, keep-append p xs ys)

  pub keep-all : (p : A → Bool) (xs : List A) → all p xs ≡ true → keep p xs ≡ xs
  keep-all p [] h = refl
  keep-all p (x ∷ xs) h = ground (arith, keep-all p xs)

  pub keep-keep : (p : A → Bool) (xs : List A) → keep p (keep p xs) ≡ keep p xs
  keep-keep p [] = refl
  keep-keep p (x ∷ xs) = ground (arith, keep-keep p xs)

  pub keep_comm : (p q : A → Bool) (xs : List A) → keep p (keep q xs) ≡ keep q (keep p xs)
  keep_comm p q [] = refl
  keep_comm p q (x ∷ xs) = ground (arith, keep_comm p q xs)

  pub any-keep : (p q : A → Bool) (xs : List A) → any p (keep q xs) ≡ any (λ x. q x && p x) xs
  any-keep p q [] = refl
  any-keep p q (x ∷ xs) = ground (arith, any-keep p q xs)

  -- a row with no hit is kept as it is
  pub keep_congr : (p q : A → Bool) (xs : List A) → ((x : A) → p x ≡ q x) → keep p xs ≡ keep q xs
  keep_congr p q xs h = rw (fun_ext h)

  pub all_of_none : (p : A → Bool) (xs : List A) → any p xs ≡ false → keep (λ x. not (p x)) xs ≡ xs
  all_of_none p [] h = refl
  all_of_none p (x ∷ xs) h = ground (arith, all_of_none p xs)

pub any-map {ℓ κ} :
    {A : Type ℓ} {B : Type κ} (p : B → Bool) (f : A → B) (xs : List A)
    → any p (map f xs) ≡ any (λ x. p (f x)) xs
any-map p f [] = refl
any-map p f (x ∷ xs) = ground (arith, any-map p f xs)

pub any_congr {ℓ} :
    {A : Type ℓ} (p q : A → Bool) (xs : List A) → ((x : A) → p x ≡ q x) → any p xs ≡ any q xs
any_congr p q xs h = rw (fun_ext h)

pub map_congr_mem {ℓ κ} :
    {A : Type ℓ} {B : Type κ} (f g : A → B) (xs : List A)
    → ((a : A) → Memᴰ a xs → f a ≡ g a)
    → map f xs ≡ map g xs
map_congr_mem f g [] h = refl
map_congr_mem f g (x ∷ xs) h =
    ap₂ ◌∷◌ (h x (Memᴰ.head refl)) (map_congr_mem f g xs (λ a m. h a (Memᴰ.tail m)))

pub map_congr {ℓ κ} :
    {A : Type ℓ} {B : Type κ} (f g : A → B) (xs : List A)
    → ((a : A) → f a ≡ g a)
    → map f xs ≡ map g xs
map_congr f g xs h = rw (fun_ext h)

pub map-map {ℓ κ μ} :
    {A : Type ℓ} {B : Type κ} {C : Type μ} (g : B → C) (f : A → B) (xs : List A)
    → map g (map f xs) ≡ map (λ a. g (f a)) xs
map-map g f [] = refl
map-map g f (x ∷ xs) = ap (λ t. g (f x) ∷ t) (map-map g f xs)

pub map_id {ℓ} : {A : Type ℓ} (xs : List A) → map (λ a. a) xs ≡ xs
map_id [] = refl
map_id (x ∷ xs) = ap (λ t. x ∷ t) (map_id xs)
