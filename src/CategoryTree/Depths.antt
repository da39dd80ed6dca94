-- ===== src/CategoryTree/Depths.antt =====
-- srv/category_tree.go: a category is shown at the depth at which its parents lead to a root.
use feedreader.Prelude.{
  ℕ, zero, suc, ◌≡◌, refl, sym, ap, ◌∙◌, Bool, false, List, [], ◌∷◌, nat_eq, nat_eq_iff, leb, ◌+◌,
  ◌≤◌, ◌<◌, any, any_congr, ◌&&◌, ◌||◌, arith, inl, inr, Bool-cases,
}
use feedreader.Db.Models.{Category}
use feedreader.CategoryTree.Nodes.{
  category_of, depth_of, is_child, is_root, flatten_category_tree, build_category_tree,
}
use feedreader.CategoryTree.Shown.{found_below, flatten-build}

module _ {ℓ} {A : Type ℓ} where
  any_none : (xs : List A) → any (λ x. false) xs ≡ false
  any_none [] = refl
  any_none (x ∷ xs) = any_none xs

  any_or : (p q : A → Bool) (xs : List A) → any (λ x. p x || q x) xs ≡ (any p xs || any q xs)
  any_or p q [] = refl
  any_or p q (x ∷ xs) = ground (arith, any_or p q xs)

  any_and : (b : Bool) (p : A → Bool) (xs : List A) → any (λ x. b && p x) xs ≡ (b && any p xs)
  any_and b p [] = ground arith
  any_and b p (x ∷ xs) = ground (arith, any_and b p xs)

  any_none_of : (p : A → Bool) (xs : List A) → ((x : A) → p x ≡ false) → any p xs ≡ false
  any_none_of p xs h = any_congr p (λ x. false) xs h ∙ any_none xs

  any_and_none :
      (p q : A → Bool) (xs : List A) → any q xs ≡ false → any (λ x. p x && q x) xs ≡ false
  any_and_none p q [] h = refl
  any_and_none p q (x ∷ xs) h = ground (arith, any_and_none p q xs)

  any_swap :
      (f : A → A → Bool) (xs ys : List A)
      → any (λ x. any (f x) ys) xs ≡ any (λ y. any (λ x. f x y) xs) ys
  any_swap f [] ys = sym (any_none ys)
  any_swap f (x ∷ xs) ys =
      ap (λ b. any (f x) ys || b) (any_swap f xs ys)
      ∙ sym (any_or (f x) (λ y. any (λ x. f x y) xs) ys)

module _ (order : List Category) where
  -- some category exactly so many levels below passes a test
  down : ℕ → (Category → Bool) → Category → Bool
  down zero q c = q c
  down (suc k) q c = any (λ e. is_child c e && down k q e) order

  -- so many steps from a category to its parent lead to one that passes a test
  unfoldable pub climbs : ℕ → (Category → Bool) → Category → Bool
  climbs zero w e = w e
  climbs (suc k) w e = any (λ d. is_child d e && climbs k w d) order

  abbrev parent_passes : (Category → Bool) → Category → Bool
  parent_passes w e = any (λ d. is_child d e && w d) order

  climbs-parent_passes :
      (k : ℕ) (w : Category → Bool) (e : Category)
      → climbs k (parent_passes w) e ≡ climbs (suc k) w e
  unfolding climbs
  climbs-parent_passes zero w e = refl
  climbs-parent_passes (suc k) w e =
      any_congr (λ d. is_child d e && climbs k (parent_passes w) d)
        (λ d. is_child d e && climbs (suc k) w d) order
        (λ d. ap (λ b. is_child d e && b) (climbs-parent_passes k w d))

  -- going down from what passes `w` to `q` is climbing from `q` to `w`
  down-climbs :
      (k : ℕ) (w q : Category → Bool)
      → any (λ r. w r && down k q r) order ≡ any (λ e. q e && climbs k w e) order
  unfolding down climbs
  down-climbs zero w q = any_congr (λ r. w r && q r) (λ e. q e && w e) order (λ r. ground arith)
  down-climbs (suc k) w q =
      any_congr (λ r. w r && any (λ e. is_child r e && down k q e) order)
        (λ r. any (λ e. (is_child r e && w r) && down k q e) order) order
        (λ r.
          sym (any_and (w r) (λ e. is_child r e && down k q e) order)
          ∙ any_congr (λ e. w r && (is_child r e && down k q e))
              (λ e. (is_child r e && w r) && down k q e) order (λ e. ground arith))
      ∙ any_swap (λ r e. (is_child r e && w r) && down k q e) order order
      ∙ any_congr (λ e. any (λ r. (is_child r e && w r) && down k q e) order)
          (λ e. parent_passes w e && down k q e) order (λ e. all_or_none (down k q e) e order)
      ∙ down-climbs k (parent_passes w) q
      ∙ any_congr (λ e. q e && climbs k (parent_passes w) e) (λ e. q e && climbs (suc k) w e) order
          (λ e. ap (λ b. q e && b) (climbs-parent_passes k w e))
    where
      all_or_none :
          (b : Bool) (e : Category) (rs : List Category)
          → any (λ r. (is_child r e && w r) && b) rs ≡ (any (λ r. is_child r e && w r) rs && b)
      all_or_none b e [] = refl
      all_or_none b e (r ∷ rs) = ground (arith, all_or_none b e rs)

  module _ (q : Category → Bool) (t : ℕ) where
    abbrev at_depth : Category → ℕ → Bool
    at_depth e k = q e && nat_eq k t

    -- a depth that was passed is not met below
    found_below_late :
        (levels d : ℕ) (c : Category) → t < d → found_below at_depth levels order d c ≡ false
    unfolding found_below
    found_below_late zero d c h = ground arith
    found_below_late (suc levels) d c h =
        let later =
          any_none_of (λ e. is_child c e && found_below at_depth levels order (suc d) e) order
            (λ e. ground (arith, found_below_late levels (suc d) e (omega arith))) in
        ground arith

    found_below-down :
        (levels j d : ℕ) (c : Category)
        → t ≡ d + j
        → j ≤ levels
        → found_below at_depth levels order d c ≡ down j q c
    unfolding found_below down
    found_below-down zero zero d c h k = ground arith
    found_below-down zero (suc j) d c h k = absurd (omega arith)
    found_below-down (suc levels) zero d c h k =
        let later =
          any_none_of (λ e. is_child c e && found_below at_depth levels order (suc d) e) order
            (λ e. ground (arith, found_below_late levels (suc d) e (omega arith))) in
        ground arith
    found_below-down (suc levels) (suc j) d c h k =
        let other : nat_eq d t ≡ false = ground arith in
        rw other (
          ap
            (λ b. b || any (λ e. is_child c e && found_below at_depth levels order (suc d) e) order)
            (never (q c))
          ∙ any_congr (λ e. is_child c e && found_below at_depth levels order (suc d) e)
              (λ e. is_child c e && down j q e) order
              (λ e.
                ap (λ b. is_child c e && b)
                  (found_below-down levels j (suc d) e (omega arith) (omega arith))))
      where
        never : (b : Bool) → (b && false) ≡ false
        never b = ground arith

    found_below-cut :
        (levels j d : ℕ) (c : Category)
        → t ≡ d + j
        → levels < j
        → found_below at_depth levels order d c ≡ false
    unfolding found_below
    found_below-cut zero j d c h k = ground arith
    found_below-cut (suc levels) zero d c h k = absurd (omega arith)
    found_below-cut (suc levels) (suc j) d c h k =
        let later =
          any_none_of (λ e. is_child c e && found_below at_depth levels order (suc d) e) order
            (λ e. ground (arith, found_below-cut levels j (suc d) e (omega arith) (omega arith))) in
        ground arith

  -- where no category is so deep, none is deeper
  climbs_deeper :
      (k j : ℕ) (w : Category → Bool)
      → k ≤ j
      → any (climbs k w) order ≡ false
      → any (climbs j w) order ≡ false
  unfolding climbs
  climbs_deeper k zero w m h =
      let e : k ≡ 0 = omega arith in ap (λ n. any (climbs n w) order) (sym e) ∙ h
  climbs_deeper k (suc j) w m h = elim (Bool-cases (nat_eq k (suc j))) [
    | inl e ↦ ap (λ n. any (climbs n w) order) (sym ((nat_eq_iff k (suc j)).0 e)) ∙ h
    | inr e ↦ any_none_of (climbs (suc j) w) order (λ c.
        any_and_none (λ d. is_child d c) (climbs j w) order (climbs_deeper k j w (ground arith) h))
  ]

  -- A category with an identifier is shown at a depth exactly when so many steps from it to its
  -- parent lead to a root, a category with no parent in the list. No category of the list is more
  -- than `levels` steps below a root, and the list is in any order.
  pub shown_at_depth :
      (levels t id : ℕ)
      → any (climbs (suc levels) (is_root order)) order ≡ false
      → any
          (λ n. nat_eq (category_of n).id id && nat_eq (depth_of n) t)
          (flatten_category_tree (build_category_tree levels order))
        ≡ any (λ e. nat_eq e.id id && climbs t (is_root order) e) order
  shown_at_depth levels t id h =
      let q = λ (e : Category). nat_eq e.id id in
      flatten-build (at_depth q t) levels order ∙ elim (Bool-cases (leb t levels)) [
        | inl reached ↦
            any_congr (λ r. is_root order r && found_below (at_depth q t) levels order 0 r)
              (λ r. is_root order r && down t q r) order
              (λ r.
                ap (λ b. is_root order r && b)
                  (found_below-down q t levels t 0 r (omega arith) (ground arith)))
            ∙ down-climbs t (is_root order) q
        | inr cut ↦
            any_none_of (λ r. is_root order r && found_below (at_depth q t) levels order 0 r) order
              (λ r. ground (arith, found_below-cut q t levels t 0 r (omega arith) (ground arith)))
            ∙ sym (
                any_and_none q (climbs t (is_root order)) order
                  (climbs_deeper (suc levels) t (is_root order) (ground arith) h))
      ]
