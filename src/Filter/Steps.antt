-- ===== src/Filter/Steps.antt =====
-- What a step of `MarkExcludedArticlesReadForFeed` of srv/filter.go keeps, all of it keeps.
use feedreader.Prelude.{ℕ, Option, none, some, List, [], ◌∷◌, if_holds}
use feedreader.Strings.{TextTools}
use feedreader.Db.Models.{Article, Category, CategoryExclusion, Database}
use feedreader.Db.Calls.{Faults, mark_article_read_call}
use feedreader.Db.Articles.{mark_article_read_internal}
use feedreader.Filter.Rules.{row_excluded}
use feedreader.Filter.Marking.{
  Article_row, mark_one, mark_rows, mark_found, mark_for_categories,
  mark_excluded_articles_read_for_feed,
}

module _ (tools : TextTools) (faults : Faults) (P : Database → Type 0)
    (step : (id : ℕ) (db : Database) → P db → P (mark_article_read_internal id db)) where
  mark_rows_induction :
      (es : List CategoryExclusion) (rows : List Article) (db : Database)
      → P db
      → P (mark_rows tools faults es rows db)
  unfolding mark_rows
  mark_rows_induction es [] db h = h
  mark_rows_induction es (a ∷ rows) db h =
      mark_rows_induction es rows (mark_one tools faults es a db) (
        if_holds P (row_excluded tools es a) _ db
          (if_holds P (faults (mark_article_read_call a.id)) db _ h (step a.id db h)) h)

  mark_found_induction :
      (es : List CategoryExclusion) (rows : Option (List Article)) (db : Database)
      → P db
      → P (mark_found tools faults es rows db)
  mark_found_induction [] rows db h = h
  mark_found_induction (e ∷ es) none db h = h
  mark_found_induction (e ∷ es) (some rows) db h = mark_rows_induction (e ∷ es) rows db h

  mark_for_categories_induction :
      (cats : Option (List Category)) (feed : ℕ) (db : Database)
      → P db
      → P (mark_for_categories tools faults cats feed db)
  mark_for_categories_induction none feed db h = h
  mark_for_categories_induction (some []) feed db h = h
  mark_for_categories_induction (some (cat ∷ cats)) feed db h = mark_found_induction _ _ db h

  pub mark_for_feed_induction :
      (feed : ℕ) (db : Database)
      → P db
      → P (mark_excluded_articles_read_for_feed tools faults feed db)
  unfolding mark_excluded_articles_read_for_feed
  mark_for_feed_induction feed db h = mark_for_categories_induction _ feed db h
