-- ===== src/Filter/Exact.antt =====
-- srv/filter.go against the tables: which articles the filters drop, without the queries' sorting,
-- the grouping maps and the loops.

use feedreader.Prelude.{
  ℕ, ◌≡◌, refl, sym, ap, ◌∙◌, Bool, false, not, Option, none, some, List, [], ◌∷◌, nat_eq, ◌&&◌,
  any, keep, any-keep, any_congr, and_swap, and_assoc, any-map, keep_congr, arith, ℕ_eq,
}
use feedreader.Prelude.Dict.{Dict, lookup, group, lookup-group, items}
use feedreader.Strings.{TextTools}
use feedreader.Db.Models.{CategoryExclusion, FeedCategory, Database}
use feedreader.Db.Calls.{
  Faults, list_exclusions_by_category_call, list_all_exclusions_call,
  list_feed_category_mappings_call,
}
use feedreader.Db.Rules.{
  owns_category, owns_feed, list_exclusions_by_category, ListAllExclusionsRow, list_all_exclusions,
  list_feed_category_mappings,
}
use feedreader.Db.Joins.{
  any-list_exclusions_by_category, any-list_all_exclusions, any-list_feed_category_mappings,
}
use feedreader.Filter.Rules.{Row, rule_hits, should_exclude, row_excluded, ptr_to_str}
use feedreader.Filter.Lists.{
  drop_excluded, drop_found, drop_grouped, group_excludes, filter_articles_by_category,
  excluded_by_any, drop_excluded_all, filter_all_articles,
}

module _ {ℓ} (tools : TextTools) {A : Type ℓ} ⦃row : Row A⦄ where
  -- one rule excludes the row
  abbrev pub row_hit : A → CategoryExclusion → Bool
  row_hit a e =
      rule_hits tools (row.title a) (ptr_to_str (row.summary a)) (ptr_to_str (row.author a)) e

  -- `shouldExclude` finds a rule that hits, wherever in the list it stands
  pub row_excluded-any :
      (es : List CategoryExclusion) (a : A) → row_excluded tools es a ≡ any (row_hit a) es
  unfolding should_exclude
  row_excluded-any [] a = refl
  row_excluded-any (e ∷ es) a = ground (arith, row_excluded-any es a)

  drop_excluded-keep :
      (es : List CategoryExclusion) (articles : List A)
      → drop_excluded tools es articles ≡ keep (λ a. not (any (row_hit a) es)) articles
  unfolding drop_excluded
  drop_excluded-keep es [] = refl
  drop_excluded-keep es (a ∷ articles) =
      ground (arith, row_excluded-any es a, drop_excluded-keep es articles)

  -- some rule of the user's category excludes the row
  abbrev pub category_hit : Database → ℕ → ℕ → A → Bool
  category_hit db category user a =
      any
        (λ e.
          (nat_eq e.category_id category && owns_category db.categories e.category_id (some user))
          && row_hit a e)
        db.category_exclusions

  keep_unhit : (articles : List A) → keep (λ a. not (any (row_hit a) [])) articles ≡ articles
  keep_unhit [] = refl
  keep_unhit (a ∷ articles) = ap (λ t. a ∷ t) (keep_unhit articles)

  module _ (db : Database) where
    -- With the query answered, exactly the rows that some rule of the user's category hits are gone.
    pub filter_articles_by_category_exact :
        (faults : Faults) (articles : List A) (category user : ℕ)
        → faults (list_exclusions_by_category_call category) ≡ false
        → filter_articles_by_category tools db faults articles category user
          ≡ keep (λ a. not (category_hit db category user a)) articles
    unfolding filter_articles_by_category
    filter_articles_by_category_exact faults articles category user answered = rw answered (
        found (list_exclusions_by_category db category (some user))
        ∙ keep_congr _ _ articles
            (λ a. ap not (any-list_exclusions_by_category db category (some user) (row_hit a))))
      where
        found :
            (es : List CategoryExclusion)
            → drop_found tools (some es) articles ≡ keep (λ a. not (any (row_hit a) es)) articles
        found [] = sym (keep_unhit articles)
        found (e ∷ es) = drop_excluded-keep (e ∷ es) articles

    -- some category of the row's feed has a rule of the user's that hits the row
    abbrev pub feed_hit : ℕ → A → Bool
    feed_hit user a =
        any
          (λ m.
            (owns_feed db.feeds m.feed_id (some user) && nat_eq m.feed_id (row.feed_id a))
            && category_hit db m.category_id user a)
          db.feed_categories

  group_excludes-any :
      (found : Option (List CategoryExclusion)) (a : A)
      → group_excludes tools found a ≡ any (row_hit a) (items found)
  group_excludes-any none a = refl
  group_excludes-any (some es) a = row_excluded-any es a

  excluded_by_any-any :
      (by_category : Dict ℕ (List CategoryExclusion)) (cs : List ℕ) (a : A)
      → excluded_by_any tools by_category cs a
        ≡ any (λ c. any (row_hit a) (items (lookup c by_category))) cs
  unfolding excluded_by_any
  excluded_by_any-any by_category [] a = refl
  excluded_by_any-any by_category (c ∷ cs) a =
      ground
        (arith, group_excludes-any (lookup c by_category) a, excluded_by_any-any by_category cs a)

  drop_excluded_all-keep :
      (by_category : Dict ℕ (List CategoryExclusion)) (by_feed : Dict ℕ (List ℕ))
      (articles : List A)
      → drop_excluded_all tools by_category by_feed articles
        ≡ keep
            (λ a.
              not (excluded_by_any tools by_category (items (lookup (row.feed_id a) by_feed)) a))
            articles
  unfolding drop_excluded_all
  drop_excluded_all-keep by_category by_feed [] = refl
  drop_excluded_all-keep by_category by_feed (a ∷ articles) =
      ground (arith, drop_excluded_all-keep by_category by_feed articles)

  -- the rules that the first map holds for a category
  rules_of :
      (db : Database) (user category : ℕ) (a : A)
      → any (row_hit a) (
          items (
            lookup category (
              group
                (λ r. r.category_id)
                (λ r. r.exclusion)
                []
                (list_all_exclusions db (some user)))))
        ≡ category_hit db category user a
  unfolding lookup
  rules_of db user category a =
      let rows = list_all_exclusions db (some user) in
      ap (any (row_hit a)) (lookup-group (λ r. r.category_id) (λ r. r.exclusion) category [] rows)
      ∙ any-map (row_hit a) (λ r. r.exclusion) (keep (λ r. nat_eq r.category_id category) rows)
      ∙ any-keep (λ r. row_hit a r.exclusion) (λ r. nat_eq r.category_id category) rows
      ∙ any-list_all_exclusions db (some user) (λ e. nat_eq e.category_id category && row_hit a e)
      ∙ any_congr _ _ db.category_exclusions (λ e.
        and_swap (owns_category db.categories e.category_id (some user))
          (nat_eq e.category_id category) (row_hit a e))

  -- the two maps hold just the rules and mappings of the tables
  grouped-feed_hit :
      (db : Database) (user : ℕ) (a : A)
      → excluded_by_any tools
          (group (λ r. r.category_id) (λ r. r.exclusion) [] (list_all_exclusions db (some user)))
          (items (
            lookup (row.feed_id a) (
              group
                (λ m. m.feed_id)
                (λ m. m.category_id)
                []
                (list_feed_category_mappings db (some user)))))
          a
        ≡ feed_hit db user a
  unfolding lookup
  grouped-feed_hit db user a =
      let mappings = list_feed_category_mappings db (some user) in
      let by_category =
        group (λ (r : ListAllExclusionsRow). r.category_id) (λ r. r.exclusion) []
          (list_all_exclusions db (some user)) in
      excluded_by_any-any by_category _ a
      ∙ any_congr _ _ _ (λ c. rules_of db user c a)
      ∙ ap (any (λ c. category_hit db c user a))
          (lookup-group (λ m. m.feed_id) (λ m. m.category_id) (row.feed_id a) [] mappings)
      ∙ any-map (λ c. category_hit db c user a) (λ m. m.category_id) _
      ∙ any-keep (λ m. category_hit db m.category_id user a) (λ m. nat_eq m.feed_id (row.feed_id a))
          mappings
      ∙ any-list_feed_category_mappings db (some user)
          (λ m. nat_eq m.feed_id (row.feed_id a) && category_hit db m.category_id user a)
      ∙ any_congr _ _ db.feed_categories (λ m. sym (
          and_assoc (owns_feed db.feeds m.feed_id (some user)) (nat_eq m.feed_id (row.feed_id a))
            (category_hit db m.category_id user a)))

  no_rules : (cs : List ℕ) (a : A) → any (λ c. any (row_hit a) (items (lookup c []))) cs ≡ false
  unfolding lookup
  no_rules [] a = refl
  no_rules (c ∷ cs) a = no_rules cs a

  drop_grouped-none :
      (rows : Option (List ListAllExclusionsRow)) (articles : List A)
      → drop_grouped tools rows none articles ≡ articles
  unfolding drop_grouped
  drop_grouped-none none articles = refl
  drop_grouped-none (some []) articles = refl
  drop_grouped-none (some (r ∷ rows)) articles = refl

  -- the code's early return on an empty list of rules is what the loop would give
  drop_grouped-keep :
      (rows : List ListAllExclusionsRow) (mappings : List FeedCategory) (articles : List A)
      → drop_grouped tools (some rows) (some mappings) articles
        ≡ keep
            (λ a. not (
              excluded_by_any tools
                (group (λ r. r.category_id) (λ r. r.exclusion) [] rows)
                (items (
                  lookup (row.feed_id a) (group (λ m. m.feed_id) (λ m. m.category_id) [] mappings)))
                a))
            articles
  unfolding drop_grouped group
  drop_grouped-keep [] mappings articles = sym (
      keep_congr _ _ articles (λ a. ap not (excluded_by_any-any [] _ a ∙ no_rules _ a))
      ∙ keep_unhit articles)
  drop_grouped-keep (r ∷ rows) mappings articles = drop_excluded_all-keep _ _ articles

  -- With both queries answered, exactly the rows are gone that a rule of one of their feed's
  -- categories hits, where the rule's category and the feed are the user's.
  pub filter_all_articles_exact :
      (db : Database) (faults : Faults) (articles : List A) (user : ℕ)
      → faults list_all_exclusions_call ≡ false
      → faults list_feed_category_mappings_call ≡ false
      → filter_all_articles tools db faults articles user
        ≡ keep (λ a. not (feed_hit db user a)) articles
  unfolding filter_all_articles
  filter_all_articles_exact db faults articles user h k =
      rw (h, k)
        (drop_grouped-keep (list_all_exclusions db (some user))
            (list_feed_category_mappings db (some user)) articles
          ∙ keep_congr _ _ articles (λ a. ap not (grouped-feed_hit db user a)))
