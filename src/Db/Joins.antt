-- ===== src/Db/Joins.antt =====
-- The JOINs of db/dbgen under a test over their rows.

use feedreader.Prelude.{
  ℕ, ◌≡◌, refl, ap₂, ◌∙◌, is_some, Bool, Option, none, some, List, [], ◌∷◌, nat_eq, ◌&&◌, ◌||◌, any,
  any-keep, any-append, Bool-cases, inl, inr, arith,
}
use feedreader.Prelude.Sorting.{any-order_by}
use feedreader.Db.Models.{Category, CategoryExclusion, FeedCategory, Database}
use feedreader.Db.Rules.{
  owns_category, owns_feed, with_id, join_categories, find_category, add_row, join_exclusions,
  ListAllExclusionsRow, list_all_exclusions, list_exclusions_by_category,
  list_feed_category_mappings,
}

find_category_owns :
    (cats : List Category) (id : ℕ) (user : Option ℕ)
    → is_some (find_category cats id user) ≡ owns_category cats id user
find_category_owns [] id user = refl
find_category_owns (c ∷ cs) id user = ground (arith, find_category_owns cs id user)

any-add_row :
    (found : Option Category) (p : CategoryExclusion → Bool) (e : CategoryExclusion)
    (rest : List ListAllExclusionsRow)
    → any (λ r. p r.exclusion) (add_row found e rest)
      ≡ ((is_some found && p e) || any (λ r. p r.exclusion) rest)
any-add_row none p e rest = refl
any-add_row (some c) p e rest = refl

-- the rows of the JOIN are the rules whose category is the user's
pub any-join_exclusions :
    (cats : List Category) (user : Option ℕ) (p : CategoryExclusion → Bool)
    (es : List CategoryExclusion)
    → any (λ r. p r.exclusion) (join_exclusions cats user es)
      ≡ any (λ e. owns_category cats e.category_id user && p e) es
any-join_exclusions cats user p [] = refl
any-join_exclusions cats user p (e ∷ es) =
    any-add_row (find_category cats e.category_id user) p e (join_exclusions cats user es)
    ∙ ap₂ (λ x y. (x && p e) || y) (find_category_owns cats e.category_id user)
        (any-join_exclusions cats user p es)

-- a test over the rules of one category of the user's
pub any-list_exclusions_by_category :
    (db : Database) (category : ℕ) (user : Option ℕ) (p : CategoryExclusion → Bool)
    → any p (list_exclusions_by_category db category user)
      ≡ any
          (λ e.
            (nat_eq e.category_id category && owns_category db.categories e.category_id user)
            && p e)
          db.category_exclusions
unfolding list_exclusions_by_category
any-list_exclusions_by_category db category user p =
    any-order_by _ p _ ∙ any-keep p _ db.category_exclusions

-- a test over all rules of the user's
pub any-list_all_exclusions :
    (db : Database) (user : Option ℕ) (p : CategoryExclusion → Bool)
    → any (λ r. p r.exclusion) (list_all_exclusions db user)
      ≡ any (λ e. owns_category db.categories e.category_id user && p e) db.category_exclusions
unfolding list_all_exclusions
any-list_all_exclusions db user p =
    any-order_by _ (λ r. p r.exclusion) _
    ∙ any-join_exclusions db.categories user p db.category_exclusions

-- a test over the feed-to-category mappings of the user's feeds
pub any-list_feed_category_mappings :
    (db : Database) (user : Option ℕ) (p : FeedCategory → Bool)
    → any p (list_feed_category_mappings db user)
      ≡ any (λ m. owns_feed db.feeds m.feed_id user && p m) db.feed_categories
unfolding list_feed_category_mappings
any-list_feed_category_mappings db user p = any-keep p _ db.feed_categories

any-with_id :
    (p : Category → Bool) (cats : List Category) (id : ℕ)
    → any p (with_id cats id) ≡ any (λ c. nat_eq c.id id && p c) cats
any-with_id p cats id = any-keep p (λ c. nat_eq c.id id) cats

-- a test over the categories of a feed
pub any-join_categories :
    (cats : List Category) (feed : ℕ) (p : Category → Bool) (ms : List FeedCategory)
    → any p (join_categories cats feed ms)
      ≡ any (λ m. nat_eq m.feed_id feed && any (λ c. nat_eq c.id m.category_id && p c) cats) ms
any-join_categories cats feed p [] = refl
any-join_categories cats feed p (m ∷ ms) = elim (Bool-cases (nat_eq m.feed_id feed)) [
  | inl e ↦ rw e (
      any-append p (with_id cats m.category_id) (join_categories cats feed ms)
      ∙ ap₂ ◌||◌ (any-with_id p cats m.category_id) (any-join_categories cats feed p ms))
  | inr e ↦ rw e (any-join_categories cats feed p ms)
]
