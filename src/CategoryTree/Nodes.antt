-- ===== src/CategoryTree/Nodes.antt =====
-- srv/category_tree.go: building the tree, sorting it, its depths, and its display order. The list
-- of categories stands in the order in which Go ranges over `nodeMap`; identifiers are a key.
use Prim.Native.Nat.{Ordering}
use Prim.Native.String.{compare}
use feedreader.Prelude.{
  ℕ, zero, suc, Bool, true, false, not, none, some, List, [], ◌∷◌, ◌++◌, nat_eq, any, keep, ◌&&◌,
  ◌||◌, if◌then◌else◌,
}
use feedreader.Prelude.Int.{ℤ, pos, ltb_ℤ}
use feedreader.Db.Models.{Category}
use feedreader.Db.Calls.{sql_eq}

-- a category with its children and its depth
mutual
  pub data CategoryNode : Type 0 where
    node : Category → Nodes → ℕ → CategoryNode

  pub data Nodes : Type 0 where
    end : Nodes
    child : CategoryNode → Nodes → Nodes

abbrev pub category_of : CategoryNode → Category
category_of (node c children depth) = c

abbrev pub depth_of : CategoryNode → ℕ
depth_of (node c children depth) = depth

abbrev pub is_child : Category → Category → Bool
is_child parent c = sql_eq c.parent_id (some parent.id)

-- no parent, or one that does not exist
abbrev pub is_root : List Category → Category → Bool
is_root order c = elim c.parent_id [
  | none ↦ true
  | some parent ↦ not (any (λ d. nat_eq d.id parent) order)
]

abbrev pub nodes_of : (Category → CategoryNode) → List Category → Nodes
nodes_of f [] = end
nodes_of f (c ∷ cs) = child (f c) (nodes_of f cs)

-- A node with what hangs below it once all pointers are set, down to a number of levels.
unfoldable pub grow : ℕ → List Category → Category → CategoryNode
grow zero order c = node c end 0
grow (suc levels) order c = node c (nodes_of (grow levels order) (keep (is_child c) order)) 0

abbrev sort_order : Category → ℤ
sort_order c = elim c.sort_order [ none ↦ pos 0 | some n ↦ n ]

-- `iOrder > jOrder || (iOrder == jOrder && nodes[i].Name > nodes[j].Name)`
abbrev pub comes_after : CategoryNode → CategoryNode → Bool
comes_after (node a below_a i) (node b below_b j) =
    ltb_ℤ (sort_order b) (sort_order a)
    || (not (ltb_ℤ (sort_order a) (sort_order b))
        && elim (compare a.name b.name) [ Ordering.gt ↦ true | _ ↦ false ])

abbrev pub put_second : CategoryNode → Nodes → Nodes
put_second x end = child x end
put_second x (child first rest) = child first (child x rest)

-- the inner loop: the node at `i` is exchanged with each later one that it comes after
unfoldable pub exchange : CategoryNode → Nodes → Nodes
exchange a end = child a end
exchange a (child b ns) =
    let kept = exchange a ns in
    let swapped = exchange b ns in
    if comes_after a b then put_second a swapped else put_second b kept

abbrev pub length_nodes : Nodes → ℕ
length_nodes end = 0
length_nodes (child n ns) = suc (length_nodes ns)

-- the outer loop, one position after the other
unfoldable pub sort_from : ℕ → Nodes → Nodes
unfolding exchange
sort_from zero ns = ns
sort_from (suc left) end = end
sort_from (suc left) (child a ns) = elim (exchange a ns) [
  | end ↦ end
  | child first rest ↦ child first (sort_from left rest)
]

-- A comparison does not see the children, so they are sorted first.
unfoldable mutual
  unfolding sort_from

  pub sort_node : CategoryNode → CategoryNode
  sort_node (node c ns depth) = node c (sort_from (length_nodes ns) (sort_each ns)) depth

  pub sort_each : Nodes → Nodes
  sort_each end = end
  sort_each (child n ns) = child (sort_node n) (sort_each ns)

unfoldable pub sort_category_nodes : Nodes → Nodes
unfolding sort_from sort_each
sort_category_nodes ns = sort_from (length_nodes ns) (sort_each ns)

unfoldable mutual
  pub calculate_depths : ℕ → CategoryNode → CategoryNode
  calculate_depths d (node c ns old) = node c (calculate_all (suc d) ns) d

  pub calculate_all : ℕ → Nodes → Nodes
  calculate_all d end = end
  calculate_all d (child n ns) = child (calculate_depths d n) (calculate_all d ns)

unfoldable mutual
  pub flatten_node : CategoryNode → List CategoryNode
  flatten_node (node c ns d) = node c ns d ∷ flatten_category_tree ns

  pub flatten_category_tree : Nodes → List CategoryNode
  flatten_category_tree end = []
  flatten_category_tree (child n ns) = flatten_node n ++ flatten_category_tree ns

unfoldable pub build_category_tree : ℕ → List Category → Nodes
unfolding grow sort_category_nodes calculate_all
build_category_tree levels order =
    calculate_all 0
      (sort_category_nodes (nodes_of (grow levels order) (keep (is_root order) order)))
