-- ===== src/Filter/Marking.antt =====
-- srv/filter.go: articles that a rule excludes are marked read in the database
-- (`MarkExcludedArticlesReadForFeed`, `MarkExcludedArticlesReadForCategory`).
use feedreader.Prelude.{ℕ, Option, none, some, List, [], ◌∷◌, ◌++◌, if◌then◌else◌}
use feedreader.Strings.{TextTools}
use feedreader.Db.Models.{Article, Category, CategoryExclusion, Database}
use feedreader.Db.Calls.{
  Faults, ask, list_exclusions_by_category_call, get_feed_categories_call,
  list_unread_articles_by_feed_call, list_unread_articles_by_category_call, mark_article_read_call,
}
use feedreader.Db.Rules.{list_exclusions_by_category, get_feed_categories}
use feedreader.Db.Articles.{
  list_unread_articles_by_feed_internal, list_unread_articles_by_category_internal,
  mark_article_read_internal,
}
use feedreader.Filter.Rules.{Row, row_excluded}

-- the rows of both internal queries carry the columns that the rules read
instance abbrev pub Article_row : Row Article
Article_row = record {
  feed_id = λ a. a.feed_id;
  title = λ a. a.title;
  summary = λ a. a.summary;
  author = λ a. a.author;
}

module _ (tools : TextTools) (faults : Faults) where
  -- one round of the loop: an UPDATE that fails is logged and skipped
  abbrev pub mark_one : List CategoryExclusion → Article → Database → Database
  mark_one exclusions a db =
      if row_excluded tools exclusions a
      then if faults (mark_article_read_call a.id) then db else mark_article_read_internal a.id db
      else db

  unfoldable pub mark_rows : List CategoryExclusion → List Article → Database → Database
  unfolding mark_article_read_internal
  mark_rows exclusions [] db = db
  mark_rows exclusions (a ∷ articles) db = mark_rows exclusions articles (mark_one exclusions a db)

  -- `append(allExclusions, exclusions...)`, or `continue` where the query failed
  abbrev pub append_found :
      Option (List CategoryExclusion) → List CategoryExclusion → List CategoryExclusion
  append_found none rest = rest
  append_found (some exclusions) rest = exclusions ++ rest

  -- the rules of all the categories, each asked for as the category's own user
  unfoldable pub collect_exclusions : Database → List Category → List CategoryExclusion
  collect_exclusions db [] = []
  collect_exclusions db (cat ∷ cats) =
      append_found
        (ask faults (list_exclusions_by_category_call cat.id)
          (list_exclusions_by_category db cat.id cat.user_id))
        (collect_exclusions db cats)

  -- the early returns on a failed query of articles and on an empty list of rules, then the loop
  abbrev pub mark_found : List CategoryExclusion → Option (List Article) → Database → Database
  mark_found [] articles db = db
  mark_found (e ∷ es) none db = db
  mark_found (e ∷ es) (some articles) db = mark_rows (e ∷ es) articles db

  abbrev pub mark_for_categories : Option (List Category) → ℕ → Database → Database
  mark_for_categories none feed db = db
  mark_for_categories (some []) feed db = db
  mark_for_categories (some (cat ∷ cats)) feed db =
      mark_found (collect_exclusions db (cat ∷ cats))
        (ask faults (list_unread_articles_by_feed_call feed)
          (list_unread_articles_by_feed_internal db feed))
        db

  unfoldable pub mark_excluded_articles_read_for_feed : ℕ → Database → Database
  unfolding mark_rows
  mark_excluded_articles_read_for_feed feed db =
      mark_for_categories (ask faults (get_feed_categories_call feed) (get_feed_categories db feed))
        feed db

  abbrev pub mark_with_rules :
      Option (List CategoryExclusion) → Option (List Article) → Database → Database
  mark_with_rules none articles db = db
  mark_with_rules (some exclusions) articles db = mark_found exclusions articles db

  unfoldable pub mark_excluded_articles_read_for_category : ℕ → ℕ → Database → Database
  unfolding mark_rows
  mark_excluded_articles_read_for_category category user db =
      mark_with_rules
        (ask faults (list_exclusions_by_category_call category)
          (list_exclusions_by_category db category (some user)))
        (ask faults (list_unread_articles_by_category_call category)
          (list_unread_articles_by_category_internal db category))
        db
