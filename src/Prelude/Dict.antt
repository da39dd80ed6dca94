-- ===== src/Prelude/Dict.antt =====
-- A Go map as an association list with one entry for each key.
use mathlib.Core.Path.{◌≡◌, refl, sym, ap, ◌∙◌}
use mathlib.Core.Bool.{Bool, true, false}
use mathlib.Core.Logic.{inl, inr}
use mathlib.Core.Option.{Option, none, some}
use mathlib.Core.List.{List, [], ◌∷◌, ◌++◌, map, append-nil, append_assoc}
use native.Mathlib.Omega.{arith}
use Prim.Native.Nat.{ℕ, ◌+◌, ◌≤◌, ◌<◌}
use feedreader.Prelude.Tests.{Eq, ◌==◌, ℕ_eq, nat_eq, nat_eq_iff, Bool-cases, if◌then◌else◌}
use feedreader.Prelude.Lists.{length, keep}

abbrev pub Dict {ℓ κ} : Type ℓ → Type κ → Type (ℓ ⊔ κ)
Dict K V = List (K × V)

module _ {ℓ κ} {K : Type ℓ} {V : Type κ} ⦃e : Eq K⦄ where
  -- `v, ok := m[k]`
  unfoldable pub lookup : K → Dict K V → Option V
  lookup key [] = none
  lookup key ((name, value) ∷ rest) = if name == key then some value else lookup key rest

  -- `m[k] = v`
  unfoldable pub insert : K → V → Dict K V → Dict K V
  insert key value [] = (key, value) ∷ []
  insert key value ((name, old) ∷ rest) =
      if name == key then (key, value) ∷ rest else (name, old) ∷ insert key value rest

  -- `delete(m, k)`
  unfoldable pub delete : K → Dict K V → Dict K V
  delete k [] = []
  delete k ((j, w) ∷ m) = let rest = delete k m in if j == k then rest else (j, w) ∷ rest

  abbrev pub NodupKeys : Dict K V → Type κ
  NodupKeys [] = Unit
  NodupKeys ((k, _) ∷ m) = (lookup k m ≡ none) × NodupKeys m

  pub lookup-insert :
      (wanted key : K) (value : V) (m : Dict K V)
      → lookup wanted (insert key value m) ≡ (if key == wanted then some value else lookup wanted m)
  unfolding lookup insert
  lookup-insert wanted key value [] = refl
  lookup-insert wanted key value ((name, old) ∷ rest) = ground (
    arith,
    lookup-insert wanted key value rest,
    e.same_iff name key,
    e.same_iff name wanted,
    e.same_iff key wanted,
  )

  pub lookup-delete :
      (j k : K) (m : Dict K V) → lookup j (delete k m) ≡ (if k == j then none else lookup j m)
  unfolding lookup delete
  lookup-delete j k [] = ground arith
  lookup-delete j k ((i, w) ∷ m) =
      ground (arith, e.same_iff k j, e.same_iff i k, e.same_iff i j, lookup-delete j k m)

  pub insert-NodupKeys : (k : K) (v : V) (m : Dict K V) → NodupKeys m → NodupKeys (insert k v m)
  unfolding insert lookup
  insert-NodupKeys k v [] h = (refl, tt)
  insert-NodupKeys k v ((j, w) ∷ m) (fresh, u) =
      ground
        (arith, insert-NodupKeys k v m u, lookup-insert j k v m, e.same_iff j k, e.same_iff k j)

  pub delete-NodupKeys : (k : K) (m : Dict K V) → NodupKeys m → NodupKeys (delete k m)
  unfolding delete
  delete-NodupKeys k [] h = tt
  delete-NodupKeys k ((j, w) ∷ m) (fresh, u) =
      ground (arith, delete-NodupKeys k m u, lookup-delete j k m)

  pub length-insert_new :
      (k : K) (v : V) (m : Dict K V) → lookup k m ≡ none → length (insert k v m) ≡ length m + 1
  unfolding insert lookup
  length-insert_new k v [] h = omega arith
  length-insert_new k v ((j, w) ∷ m) h = ground (arith, length-insert_new k v m)

  pub length-insert_old :
      (k : K) (v : V) (m : Dict K V) {w : V}
      → lookup k m ≡ some w
      → length (insert k v m) ≡ length m
  unfolding insert lookup
  length-insert_old k v [] h = cc
  length-insert_old k v ((j, u) ∷ m) {w} h = ground (arith, length-insert_old k v m {w = w})

  pub length-delete : (k : K) (m : Dict K V) → length (delete k m) ≤ length m
  unfolding delete
  length-delete k [] = omega arith
  length-delete k ((j, w) ∷ m) = ground (arith, length-delete k m)

  pub length-delete_lt :
      (k : K) (m : Dict K V) {w : V} → lookup k m ≡ some w → length (delete k m) < length m
  unfolding delete lookup
  length-delete_lt k [] h = absurd (cc)
  length-delete_lt k ((j, u) ∷ m) {w} h =
      ground (arith, length-delete k m, length-delete_lt k m {w = w})

-- the slice that a map of slices holds for a key; a missing key gives the nil slice
abbrev pub items {ℓ} : {V : Type ℓ} → Option (List V) → List V
items none = []
items (some xs) = xs

-- `for _, x := range xs { m[key(x)] = append(m[key(x)], value(x)) }`
module _ {ℓ κ} {A : Type ℓ} {V : Type κ} (key : A → ℕ) (value : A → V) where
  unfoldable pub group : Dict ℕ (List V) → List A → Dict ℕ (List V)
  group m [] = m
  group m (x ∷ xs) = group (insert (key x) (items (lookup (key x) m) ++ value x ∷ []) m) xs

  lookup-append :
      (k : ℕ) (m : Dict ℕ (List V)) (x : A)
      → items (lookup k (insert (key x) (items (lookup (key x) m) ++ value x ∷ []) m))
        ≡ items (lookup k m) ++ (if nat_eq (key x) k then value x ∷ [] else [])
  lookup-append k m x = elim (Bool-cases (nat_eq (key x) k)) [
    | inl e ↦
        rw (lookup-insert, e)
          (ap (λ j. items (lookup j m) ++ value x ∷ []) ((nat_eq_iff (key x) k).0 e))
    | inr e ↦ rw (lookup-insert, e) (sym (append-nil _))
  ]

  regroup :
      (front rest : List V) (b : Bool) (v : V)
      → (front ++ (if b then v ∷ [] else [])) ++ rest ≡ front ++ (if b then v ∷ rest else rest)
  regroup front rest true v = append_assoc front (v ∷ []) rest
  regroup front rest false v = rw append-nil refl

  -- each key collects its own values, in order, behind what it held
  pub lookup-group :
      (k : ℕ) (m : Dict ℕ (List V)) (xs : List A)
      → items (lookup k (group m xs))
        ≡ items (lookup k m) ++ map value (keep (λ x. nat_eq (key x) k) xs)
  unfolding group
  lookup-group k m [] = sym (append-nil _)
  lookup-group k m (x ∷ xs) =
      let rest = map value (keep (λ y. nat_eq (key y) k) xs) in
      lookup-group k (insert (key x) (items (lookup (key x) m) ++ value x ∷ []) m) xs
      ∙ ap (λ t. t ++ rest) (lookup-append k m x)
      ∙ regroup (items (lookup k m)) rest (nat_eq (key x) k) (value x)
      ∙ branch (nat_eq (key x) k)
    where
      branch :
          (b : Bool)
          → items (lookup k m)
              ++ (if b
                  then value x ∷ map value (keep (λ y. nat_eq (key y) k) xs)
                  else map value (keep (λ y. nat_eq (key y) k) xs))
            ≡ items (lookup k m)
              ++ map value (
                  if b
                  then x ∷ keep (λ y. nat_eq (key y) k) xs
                  else keep (λ y. nat_eq (key y) k) xs)
      branch true = refl
      branch false = refl
