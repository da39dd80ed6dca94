-- ===== src/Filter/MarkedFeed.antt =====
-- Which articles `MarkExcludedArticlesReadForFeed` of srv/filter.go marks read, over the tables.
use feedreader.Prelude.{
  ℕ, ◌≡◌, refl, ap, ap₂, ◌∙◌, Bool, false, not, some, List, [], ◌∷◌, map, nat_eq, ◌&&◌, ◌||◌, any,
  if◌then◌else◌, map_congr, any-append,
}
use feedreader.Strings.{TextTools}
use feedreader.Db.Models.{Article, Category, Database}
use feedreader.Db.Calls.{
  Faults, ask, is_zero, mark_article_read_call, list_exclusions_by_category_call,
  get_feed_categories_call, list_unread_articles_by_feed_call,
}
use feedreader.Db.Rules.{
  list_exclusions_by_category, get_feed_categories, owns_category, join_categories,
}
use feedreader.Db.Joins.{any-list_exclusions_by_category, any-join_categories}
use feedreader.Db.Articles.{list_unread_articles_by_feed_internal}
use feedreader.Filter.Exact.{row_hit, row_excluded-any}
use feedreader.Filter.Marking.{
  Article_row, mark_found, collect_exclusions, mark_for_categories,
  mark_excluded_articles_read_for_feed,
}
use feedreader.Filter.Marked.{UniqueIds, read}
use feedreader.Filter.MarkedExact.{hits, mark_found-exact}

module _ (tools : TextTools) (faults : Faults) where
  -- a rule of category `c` that the category's own user can see hits the article
  abbrev pub own_rule_hit : Database → Article → Category → Bool
  own_rule_hit db a c =
      any
        (λ e.
          (nat_eq e.category_id c.id && owns_category db.categories e.category_id c.user_id)
          && row_hit tools a e)
        db.category_exclusions

  any-collect_exclusions :
      (db : Database) (a : Article) (cats : List Category)
      → ((c : ℕ) → faults (list_exclusions_by_category_call c) ≡ false)
      → any (row_hit tools a) (collect_exclusions tools faults db cats)
        ≡ any (own_rule_hit db a) cats
  unfolding collect_exclusions
  any-collect_exclusions db a [] h = refl
  any-collect_exclusions db a (c ∷ cats) h = rw (h c.id) (
      any-append (row_hit tools a) (list_exclusions_by_category db c.id c.user_id) _
      ∙ ap₂ ◌||◌ (any-list_exclusions_by_category db c.id c.user_id (row_hit tools a))
          (any-collect_exclusions db a cats h))

  -- some category that the feed is in has a rule that hits the article
  abbrev pub feed_rule_hit : Database → ℕ → Article → Bool
  feed_rule_hit db feed a =
      any
        (λ m.
          nat_eq m.feed_id feed
          && any (λ c. nat_eq c.id m.category_id && own_rule_hit db a c) db.categories)
        db.feed_categories

  -- an unread article of the feed that such a rule hits, and whose UPDATE does not fail
  abbrev pub feed_target : Database → ℕ → Article → Bool
  feed_target db feed a =
      (nat_eq a.feed_id feed && is_zero a.is_read)
      && (feed_rule_hit db feed a && not (faults (mark_article_read_call a.id)))

  -- a feed in no category has no rules
  mark_for_categories-found :
      (cats : List Category) (feed : ℕ) (db : Database)
      → mark_for_categories tools faults (some cats) feed db
        ≡ mark_found tools faults
            (collect_exclusions tools faults db cats)
            (ask faults
              (list_unread_articles_by_feed_call feed)
              (list_unread_articles_by_feed_internal db feed))
            db
  unfolding collect_exclusions
  mark_for_categories-found [] feed db = refl
  mark_for_categories-found (c ∷ cats) feed db = refl

  -- With the queries answered, marking sets `is_read` of exactly the feed's unread articles that a
  -- rule of one of the feed's categories hits and whose UPDATE succeeds; nothing else of the
  -- database changes. Articles have distinct keys.
  pub mark_for_feed_exact :
      (db : Database) (feed : ℕ)
      → faults (get_feed_categories_call feed) ≡ false
      → faults (list_unread_articles_by_feed_call feed) ≡ false
      → ((c : ℕ) → faults (list_exclusions_by_category_call c) ≡ false)
      → UniqueIds db.articles
      → mark_excluded_articles_read_for_feed tools faults feed db ≡ record db {
        articles = map (λ a. if feed_target db feed a then read a else a) db.articles;
      }
  unfolding mark_excluded_articles_read_for_feed list_unread_articles_by_feed_internal
      get_feed_categories
  mark_for_feed_exact db feed h k l u =
      let cats = join_categories db.categories feed db.feed_categories in
      let es = collect_exclusions tools faults db cats in
      let member = λ (a : Article). nat_eq a.feed_id feed && is_zero a.is_read in
      rw h (
        mark_for_categories-found cats feed db
        ∙ rw k (
            mark_found-exact tools faults es member db u ∙ (λ i. record db {
              articles =
                  map_congr
                    (λ (a : Article). if member a && hits tools faults es a then read a else a)
                    (λ a. if feed_target db feed a then read a else a) db.articles
                    (λ a.
                      ap
                        (λ h.
                          if member a && (h && not (faults (mark_article_read_call a.id)))
                          then read a
                          else a)
                        (row_excluded-any tools es a
                          ∙ any-collect_exclusions db a cats l
                          ∙ any-join_categories db.categories feed (own_rule_hit db a)
                              db.feed_categories))
                    i;
            })))
