-- ===== src/CategoryTree/Shown.antt =====
-- srv/category_tree.go: which categories the flattened tree shows, and at which depth.
use feedreader.Prelude.{
  ℕ, zero, suc, ◌≡◌, refl, ap, ap₂, ◌∙◌, Bool, false, List, [], ◌∷◌, any, any-append, any-keep,
  any_congr, keep, ◌&&◌, ◌||◌, arith, if_holds,
}
use feedreader.Db.Models.{Category}
use feedreader.CategoryTree.Nodes.{
  CategoryNode, Nodes, node, end, child, category_of, depth_of, is_child, is_root, nodes_of, grow,
  comes_after, put_second, exchange, length_nodes, sort_from, sort_node, sort_each,
  sort_category_nodes, calculate_depths, calculate_all, flatten_node, flatten_category_tree,
  build_category_tree,
}

-- Some category of a tree whose root is at a depth passes a test at its own depth.
unfoldable mutual
  any_node : (Category → ℕ → Bool) → ℕ → CategoryNode → Bool
  any_node p d (node c ns old) = p c d || any_nodes p (suc d) ns

  any_nodes : (Category → ℕ → Bool) → ℕ → Nodes → Bool
  any_nodes p d end = false
  any_nodes p d (child n ns) = any_node p d n || any_nodes p d ns

module _ (p : Category → ℕ → Bool) where
  abbrev pub shown_test : CategoryNode → Bool
  shown_test n = p (category_of n) (depth_of n)

  -- flattening shows each node with the depth that was calculated
  mutual
    unfolding any_node flatten_node calculate_depths

    flatten_depths-any :
        (d : ℕ) (n : CategoryNode)
        → any shown_test (flatten_node (calculate_depths d n)) ≡ any_node p d n
    flatten_depths-any d (node c ns old) = ap (λ b. p c d || b) (flatten_all-any (suc d) ns)

    flatten_all-any :
        (d : ℕ) (ns : Nodes)
        → any shown_test (flatten_category_tree (calculate_all d ns)) ≡ any_nodes p d ns
    flatten_all-any d end = refl
    flatten_all-any d (child n ns) =
        any-append shown_test (flatten_node (calculate_depths d n)) _
        ∙ ap₂ ◌||◌ (flatten_depths-any d n) (flatten_all-any d ns)

  put_second-any :
      (d : ℕ) (x : CategoryNode) (ns : Nodes)
      → any_nodes p d (put_second x ns) ≡ (any_node p d x || any_nodes p d ns)
  unfolding any_nodes
  put_second-any d x end = refl
  put_second-any d x (child first rest) = ground arith

  exchange-any :
      (d : ℕ) (a : CategoryNode) (ns : Nodes)
      → any_nodes p d (exchange a ns) ≡ (any_node p d a || any_nodes p d ns)
  unfolding any_nodes exchange
  exchange-any d a end = refl
  exchange-any d a (child b ns) =
      if_holds (λ r. any_nodes p d r ≡ (any_node p d a || (any_node p d b || any_nodes p d ns)))
        (comes_after a b) _ _
        (put_second-any d a (exchange b ns) ∙ ap (λ t. any_node p d a || t) (exchange-any d b ns))
        (put_second-any d b (exchange a ns)
          ∙ ap (λ t. any_node p d b || t) (exchange-any d a ns)
          ∙ ground arith)

  sort_from-any : (left d : ℕ) (ns : Nodes) → any_nodes p d (sort_from left ns) ≡ any_nodes p d ns
  unfolding any_nodes sort_from
  sort_from-any zero d ns = refl
  sort_from-any (suc left) d end = refl
  sort_from-any (suc left) d (child a ns) =
      rest (sort_from-any left d) (exchange a ns) ∙ exchange-any d a ns
    where
      rest :
          ((others : Nodes) → any_nodes p d (sort_from left others) ≡ any_nodes p d others)
          → (e : Nodes)
          → any_nodes p d
              (elim e [ end ↦ end | child first others ↦ child first (sort_from left others) ])
            ≡ any_nodes p d e
      rest ih end = refl
      rest ih (child first others) = ap (λ t. any_node p d first || t) (ih others)

  -- sorting loses no node and no depth
  mutual
    unfolding any_node sort_node

    sort_node-any : (d : ℕ) (n : CategoryNode) → any_node p d (sort_node n) ≡ any_node p d n
    sort_node-any d (node c ns old) =
        ap (λ t. p c d || t)
          (sort_from-any (length_nodes ns) (suc d) (sort_each ns) ∙ sort_each-any (suc d) ns)

    sort_each-any : (d : ℕ) (ns : Nodes) → any_nodes p d (sort_each ns) ≡ any_nodes p d ns
    sort_each-any d end = refl
    sort_each-any d (child n ns) = ap₂ ◌||◌ (sort_node-any d n) (sort_each-any d ns)

  nodes_of-any :
      (d : ℕ) (f : Category → CategoryNode) (cs : List Category)
      → any_nodes p d (nodes_of f cs) ≡ any (λ c. any_node p d (f c)) cs
  unfolding any_nodes
  nodes_of-any d f [] = refl
  nodes_of-any d f (c ∷ cs) = ap (λ t. any_node p d (f c) || t) (nodes_of-any d f cs)

  -- the category itself at a depth, or one of the given levels below it, passes the test there
  unfoldable pub found_below : ℕ → List Category → ℕ → Category → Bool
  found_below zero order d c = p c d
  found_below (suc levels) order d c =
      p c d || any (λ e. is_child c e && found_below levels order (suc d) e) order

  grow-any :
      (levels : ℕ) (order : List Category) (d : ℕ) (c : Category)
      → any_node p d (grow levels order c) ≡ found_below levels order d c
  unfolding any_node grow found_below
  grow-any zero order d c = ground arith
  grow-any (suc levels) order d c =
      ap (λ t. p c d || t)
        (nodes_of-any (suc d) (grow levels order) (keep (is_child c) order)
          ∙ any-keep (λ e. any_node p (suc d) (grow levels order e)) (is_child c) order
          ∙ any_congr (λ e. is_child c e && any_node p (suc d) (grow levels order e))
              (λ e. is_child c e && found_below levels order (suc d) e) order
              (λ e. ap (λ t. is_child c e && t) (grow-any levels order (suc d) e)))

  -- a root, or a category some levels below one, passes the test at its distance from the root
  abbrev pub found : ℕ → List Category → Bool
  found levels order = any (λ r. is_root order r && found_below levels order 0 r) order

  pub flatten-build :
      (levels : ℕ) (order : List Category)
      → any shown_test (flatten_category_tree (build_category_tree levels order))
        ≡ found levels order
  unfolding build_category_tree sort_category_nodes
  flatten-build levels order =
      let roots = nodes_of (grow levels order) (keep (is_root order) order) in
      flatten_all-any 0 (sort_category_nodes roots)
      ∙ sort_from-any (length_nodes roots) 0 (sort_each roots)
      ∙ sort_each-any 0 roots
      ∙ nodes_of-any 0 (grow levels order) (keep (is_root order) order)
      ∙ any-keep (λ r. any_node p 0 (grow levels order r)) (is_root order) order
      ∙ any_congr (λ r. is_root order r && any_node p 0 (grow levels order r))
          (λ r. is_root order r && found_below levels order 0 r) order
          (λ r. ap (λ t. is_root order r && t) (grow-any levels order 0 r))
