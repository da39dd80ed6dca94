-- ===== src/Tests/Categories.antt =====
-- The theorem on the tree of categories at a list with a tree and a cycle.
use feedreader.Prelude.{ℕ, String, ◌≡◌, refl, Option, none, some, List, [], ◌∷◌, nat_eq, any, ◌&&◌}
use feedreader.Prelude.Int.{pos}
use feedreader.Db.Models.{Category}
use feedreader.CategoryTree.Nodes.{
  category_of, depth_of, is_root, flatten_category_tree, build_category_tree,
}
use feedreader.CategoryTree.Depths.{climbs, shown_at_depth}

abbrev category_with : ℕ → String → Option ℕ → Category
category_with id name parent = record {
  id = id;
  name = name;
  created_at = 0;
  user_id = some 1;
  sort_order = some (pos 0);
  parent_id = parent;
}

-- 1 above 2, and 3 and 4 above each other
abbrev four_categories : List Category
four_categories =
    category_with 2 "b" (some 1)
    ∷ category_with 3 "c" (some 4)
    ∷ category_with 1 "a" none
    ∷ category_with 4 "d" (some 3)
    ∷ []

shown_at_depth_example :
    any
      (λ n. nat_eq (category_of n).id 2 && nat_eq (depth_of n) 1)
      (flatten_category_tree (build_category_tree 2 four_categories))
    ≡ any
        (λ e. nat_eq e.id 2 && climbs four_categories 1 (is_root four_categories) e)
        four_categories
unfolding climbs
shown_at_depth_example = shown_at_depth four_categories 2 1 2 refl
