-- ===== src/Prelude/Sorting.antt =====
-- `ORDER BY` as an insertion sort: what it does to membership and to tests over the rows.
use mathlib.Core.Path.{◌≡◌, refl}
use mathlib.Core.Bool.{Bool, ◌||◌}
use mathlib.Core.List.{List, [], ◌∷◌}
use native.Mathlib.Omega.{arith}
use feedreader.Prelude.Tests.{if◌then◌else◌}
use feedreader.Prelude.Lists.{any, length}

module _ {ℓ} {A : Type ℓ} (before : A → A → Bool) where
  -- `x` goes in front of the first row that it comes strictly before
  insert_by : A → List A → List A
  insert_by x [] = x ∷ []
  insert_by x (y ∷ ys) = if before x y then x ∷ y ∷ ys else y ∷ insert_by x ys

  unfoldable pub order_by : List A → List A
  unfolding insert_by
  order_by [] = []
  order_by (x ∷ xs) = insert_by x (order_by xs)

  any-insert_by : (p : A → Bool) (x : A) (xs : List A) → any p (insert_by x xs) ≡ (p x || any p xs)
  unfolding insert_by
  any-insert_by p x [] = refl
  any-insert_by p x (y ∷ ys) = ground (arith, any-insert_by p x ys)

  -- a test over all rows does not see their order
  pub any-order_by : (p : A → Bool) (xs : List A) → any p (order_by xs) ≡ any p xs
  unfolding order_by
  any-order_by p [] = refl
  any-order_by p (x ∷ xs) = ground (arith, any-order_by p xs, any-insert_by p x (order_by xs))

  length-insert_by : (x : A) (xs : List A) → length (insert_by x xs) ≡ length (x ∷ xs)
  unfolding insert_by
  length-insert_by x [] = refl
  length-insert_by x (y ∷ ys) = ground (arith, length-insert_by x ys)

  pub length-order_by : (xs : List A) → length (order_by xs) ≡ length xs
  unfolding order_by
  length-order_by [] = refl
  length-order_by (x ∷ xs) = ground (arith, length-order_by xs, length-insert_by x (order_by xs))
