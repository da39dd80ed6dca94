-- ===== src/Db/Articles.antt =====
-- db/dbgen/articles.sql.go: the queries over articles that run inside the server.
use feedreader.Prelude.{ℕ, some, List, map, nat_eq, any, keep, ◌&&◌, if◌then◌else◌}
use feedreader.Db.Models.{Article, Database}
use feedreader.Db.Calls.{is_zero}

unfoldable pub list_unread_articles_by_feed_internal : Database → ℕ → List Article
list_unread_articles_by_feed_internal db feed =
    keep (λ a. nat_eq a.feed_id feed && is_zero a.is_read) db.articles

-- `(feed_id, category_id)` is the key of `feed_categories`, so the JOIN repeats no article.
unfoldable pub list_unread_articles_by_category_internal : Database → ℕ → List Article
list_unread_articles_by_category_internal db category =
    keep
      (λ a.
        any (λ m. nat_eq m.feed_id a.feed_id && nat_eq m.category_id category) db.feed_categories
        && is_zero a.is_read)
      db.articles

abbrev pub set_read : ℕ → Article → Article
set_read id a = if nat_eq a.id id then record a { is_read = some 1 } else a

unfoldable pub mark_article_read_internal : ℕ → Database → Database
mark_article_read_internal id db = record db { articles = map (set_read id) db.articles }
