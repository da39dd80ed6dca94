-- ===== src/Filter/Lists.antt =====
-- srv/filter.go: the functions that take the excluded rows out of a list of articles. A query that
-- fails gives `none` by `Faults`; the functions then return the list as it came.
use feedreader.Prelude.{
  ℕ, Bool, true, false, Option, none, some, List, [], ◌∷◌, nat_eq, if◌then◌else◌, ℕ_eq,
}
use feedreader.Prelude.Dict.{Dict, lookup, group, items}
use feedreader.Strings.{TextTools}
use feedreader.Db.Models.{CategoryExclusion, FeedCategory, Database}
use feedreader.Db.Calls.{
  Faults, ask, list_exclusions_by_category_call, list_all_exclusions_call,
  list_feed_category_mappings_call, get_feed_categories_call,
}
use feedreader.Db.Rules.{
  list_exclusions_by_category, ListAllExclusionsRow, list_all_exclusions,
  list_feed_category_mappings, get_feed_categories,
}
use feedreader.Filter.Rules.{Row, row_excluded}

module _ {ℓ} (tools : TextTools) {A : Type ℓ} ⦃row : Row A⦄ where
  -- the loop that builds `filtered`
  unfoldable pub drop_excluded : List CategoryExclusion → List A → List A
  drop_excluded exclusions [] = []
  drop_excluded exclusions (a ∷ articles) =
      let rest = drop_excluded exclusions articles in
      if row_excluded tools exclusions a then rest else a ∷ rest

  -- `if err != nil || len(exclusions) == 0 { return articles }`, then the loop
  abbrev pub drop_found : Option (List CategoryExclusion) → List A → List A
  drop_found none articles = articles
  drop_found (some []) articles = articles
  drop_found (some (excl ∷ exclusions)) articles = drop_excluded (excl ∷ exclusions) articles

  -- `if excls, ok := exclusionsByCategory[catID]; ok { if s.shouldExclude(…) {`
  abbrev pub group_excludes : Option (List CategoryExclusion) → A → Bool
  group_excludes none a = false
  group_excludes (some excls) a = row_excluded tools excls a

  -- the inner loop, which breaks at the first hit
  unfoldable pub excluded_by_any : Dict ℕ (List CategoryExclusion) → List ℕ → A → Bool
  excluded_by_any by_category [] a = false
  excluded_by_any by_category (c ∷ cs) a =
      if group_excludes (lookup c by_category) a then true else excluded_by_any by_category cs a

  unfoldable pub drop_excluded_all :
      Dict ℕ (List CategoryExclusion) → Dict ℕ (List ℕ) → List A → List A
  unfolding excluded_by_any
  drop_excluded_all by_category by_feed [] = []
  drop_excluded_all by_category by_feed (a ∷ articles) =
      let rest = drop_excluded_all by_category by_feed articles in
      if excluded_by_any by_category (items (lookup (row.feed_id a) by_feed)) a
      then rest
      else a ∷ rest

  -- the answers of the two queries, the early returns, the two maps, and the loop
  unfoldable pub drop_grouped :
      Option (List ListAllExclusionsRow) → Option (List FeedCategory) → List A → List A
  unfolding drop_excluded_all
  drop_grouped none mappings articles = articles
  drop_grouped (some []) mappings articles = articles
  drop_grouped (some (r ∷ rows)) none articles = articles
  drop_grouped (some (r ∷ rows)) (some mappings) articles =
      drop_excluded_all (group (λ e. e.category_id) (λ e. e.exclusion) [] (r ∷ rows))
        (group (λ m. m.feed_id) (λ m. m.category_id) [] mappings) articles

  module _ (db : Database) (faults : Faults) where
    -- FilterArticlesByCategory and FilterArticlesByCategoryAll
    unfoldable pub filter_articles_by_category : List A → ℕ → ℕ → List A
    unfolding drop_excluded
    filter_articles_by_category articles category user =
        drop_found
          (ask faults (list_exclusions_by_category_call category)
            (list_exclusions_by_category db category (some user)))
          articles

    unfoldable pub filter_articles : List A → ℕ → ℕ → List A
    unfolding filter_articles_by_category
    filter_articles articles category user =
        if nat_eq category 0 then articles else filter_articles_by_category articles category user

    -- FilterArticlesByFeed goes by the first category of the feed
    unfoldable pub filter_articles_by_feed : List A → ℕ → ℕ → List A
    unfolding filter_articles_by_category
    filter_articles_by_feed articles feed user =
        elim (ask faults (get_feed_categories_call feed) (get_feed_categories db feed)) [
          | none ↦ articles
          | some [] ↦ articles
          | some (cat ∷ cats) ↦ filter_articles_by_category articles cat.id user
        ]

    -- FilterAllUnreadArticleFilterInputs, FilterAllUnreadArticles and FilterAllArticles
    unfoldable pub filter_all_articles : List A → ℕ → List A
    unfolding drop_grouped
    filter_all_articles articles user =
        drop_grouped (ask faults list_all_exclusions_call (list_all_exclusions db (some user)))
          (ask faults list_feed_category_mappings_call (list_feed_category_mappings db (some user)))
          articles
