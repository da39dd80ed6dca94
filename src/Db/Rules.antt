-- ===== src/Db/Rules.antt =====
-- db/dbgen/exclusions.sql.go and feeds.sql.go: the queries over categories, their exclusion rules
-- and the feeds in them.
use Prim.Native.Nat.{Ordering}
use Prim.Native.String.{compare}
use feedreader.Prelude.{
  ℕ, String, Bool, true, false, Option, none, some, List, [], ◌∷◌, ◌++◌, nat_eq, any, keep, ◌&&◌,
  if◌then◌else◌,
}
use feedreader.Prelude.Sorting.{order_by}
use feedreader.Db.Models.{Category, CategoryExclusion, Feed, FeedCategory, Database}
use feedreader.Db.Calls.{sql_eq}

-- the JOIN on a primary key with the user's WHERE clause: the row is there and is the user's
abbrev pub owns_category : List Category → ℕ → Option ℕ → Bool
owns_category rows category user = any (λ c. nat_eq c.id category && sql_eq c.user_id user) rows

abbrev pub owns_feed : List Feed → ℕ → Option ℕ → Bool
owns_feed rows feed user = any (λ f. nat_eq f.id feed && sql_eq f.user_id user) rows

-- ORDER BY e.exclusion_type, e.pattern
abbrev exclusion_before : CategoryExclusion → CategoryExclusion → Bool
exclusion_before a b = elim (compare a.exclusion_type b.exclusion_type) [
  | Ordering.lt ↦ true
  | Ordering.eq ↦ elim (compare a.pattern b.pattern) [ Ordering.lt ↦ true | _ ↦ false ]
  | Ordering.gt ↦ false
]

unfoldable pub list_exclusions_by_category : Database → ℕ → Option ℕ → List CategoryExclusion
unfolding order_by
list_exclusions_by_category db category user = order_by exclusion_before (
    keep (λ e. nat_eq e.category_id category && owns_category db.categories e.category_id user)
      db.category_exclusions)

-- A row carries the name of its category too.
pub record ListAllExclusionsRow : Type 0 where
  pub exclusion : CategoryExclusion
  pub open exclusion use *
  pub category_name : String

-- the category that the JOIN finds, if it is the user's
abbrev pub find_category : List Category → ℕ → Option ℕ → Option Category
find_category [] category user = none
find_category (c ∷ cs) category user =
    let rest = find_category cs category user in
    if nat_eq c.id category && sql_eq c.user_id user then some c else rest

abbrev pub add_row :
    Option Category → CategoryExclusion → List ListAllExclusionsRow → List ListAllExclusionsRow
add_row none e rest = rest
add_row (some c) e rest = record { exclusion = e; category_name = c.name } ∷ rest

abbrev pub join_exclusions :
    List Category → Option ℕ → List CategoryExclusion → List ListAllExclusionsRow
join_exclusions cats user [] = []
join_exclusions cats user (e ∷ es) =
    add_row (find_category cats e.category_id user) e (join_exclusions cats user es)

-- ORDER BY c.name, e.exclusion_type, e.pattern
abbrev row_before : ListAllExclusionsRow → ListAllExclusionsRow → Bool
row_before a b = elim (compare a.category_name b.category_name) [
  | Ordering.lt ↦ true
  | Ordering.eq ↦ exclusion_before a.exclusion b.exclusion
  | Ordering.gt ↦ false
]

unfoldable pub list_all_exclusions : Database → Option ℕ → List ListAllExclusionsRow
unfolding order_by
list_all_exclusions db user =
    order_by row_before (join_exclusions db.categories user db.category_exclusions)

unfoldable pub list_feed_category_mappings : Database → Option ℕ → List FeedCategory
list_feed_category_mappings db user =
    keep (λ m. owns_feed db.feeds m.feed_id user) db.feed_categories

abbrev pub with_id : List Category → ℕ → List Category
with_id cats id = keep (λ c. nat_eq c.id id) cats

abbrev pub join_categories : List Category → ℕ → List FeedCategory → List Category
join_categories cats feed [] = []
join_categories cats feed (m ∷ ms) =
    let rest = join_categories cats feed ms in
    if nat_eq m.feed_id feed then with_id cats m.category_id ++ rest else rest

-- The query has no ORDER BY: the rows come in the order of the mapping table.
unfoldable pub get_feed_categories : Database → ℕ → List Category
get_feed_categories db feed = join_categories db.categories feed db.feed_categories
