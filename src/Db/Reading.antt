-- ===== src/Db/Reading.antt =====
-- db/dbgen/articles.sql.go: the UPDATEs that the handlers of one user run over articles.
use feedreader.Prelude.{ℕ, Bool, Option, none, some, map, nat_eq, ◌&&◌, any, if◌then◌else◌}
use feedreader.Prelude.Int.{ℤ}
use feedreader.Db.Models.{Article, Database}
use feedreader.Db.Calls.{is_id, is_zero}
use feedreader.Db.Rules.{owns_feed}
use feedreader.Db.SeenGuids.{older_than}

-- `feed_id IN (SELECT id FROM feeds WHERE user_id = ?)`
abbrev pub of_user : Database → ℕ → Article → Bool
of_user db user a = owns_feed db.feeds a.feed_id (some user)

-- `UPDATE articles SET … WHERE …`
abbrev pub update_where : (Article → Bool) → (Article → Article) → Database → Database
update_where p f db = record db { articles = map (λ a. if p a then f a else a) db.articles }

abbrev pub set_is_read : ℕ → Article → Article
set_is_read n a = record a { is_read = some n }

-- `NOT is_starred`, which keeps a NULL
abbrev pub sql_not : Option ℕ → Option ℕ
sql_not none = none
sql_not (some n) = if nat_eq n 0 then some 1 else some 0

abbrev pub date : Article → ℕ
date a = elim a.published_at [ none ↦ a.fetched_at | some at ↦ at ]

unfoldable pub mark_article_read : ℤ → ℕ → Database → Database
mark_article_read id user db =
    update_where (λ a. is_id id a.id && of_user db user a) (set_is_read 1) db

unfoldable pub mark_article_unread : ℤ → ℕ → Database → Database
mark_article_unread id user db =
    update_where (λ a. is_id id a.id && of_user db user a) (set_is_read 0) db

unfoldable pub toggle_article_star : ℤ → ℕ → Database → Database
toggle_article_star id user db =
    update_where (λ a. is_id id a.id && of_user db user a)
      (λ a. record a { is_starred = sql_not a.is_starred }) db

unfoldable pub mark_all_articles_read : ℕ → Database → Database
mark_all_articles_read user db =
    update_where (λ a. is_zero a.is_read && of_user db user a) (set_is_read 1) db

unfoldable pub mark_all_articles_read_older_than : ℕ → ℕ → ℕ → Database → Database
mark_all_articles_read_older_than days user now db =
    update_where (λ a. (is_zero a.is_read && older_than days now (date a)) && of_user db user a)
      (set_is_read 1) db

unfoldable pub mark_feed_read : ℤ → ℕ → Database → Database
mark_feed_read feed user db =
    update_where (λ a. is_id feed a.feed_id && of_user db user a) (set_is_read 1) db

unfoldable pub mark_feed_articles_read_older_than : ℤ → ℕ → ℕ → ℕ → Database → Database
mark_feed_articles_read_older_than feed days user now db =
    update_where
      (λ a.
        ((is_id feed a.feed_id && is_zero a.is_read) && older_than days now (date a))
        && of_user db user a)
      (set_is_read 1) db

-- the feed is in the category: a row of `feed_categories` joins them
abbrev pub in_category : Database → ℤ → ℕ → Bool
in_category db category feed =
    any (λ m. nat_eq m.feed_id feed && is_id category m.category_id) db.feed_categories

unfoldable pub mark_category_read : ℤ → ℕ → Database → Database
mark_category_read category user db =
    update_where (λ a. in_category db category a.feed_id && of_user db user a) (set_is_read 1) db

unfoldable pub mark_category_articles_read_older_than : ℤ → ℕ → ℕ → ℕ → Database → Database
mark_category_articles_read_older_than category days user now db =
    update_where
      (λ a.
        ((in_category db category a.feed_id && is_zero a.is_read) && older_than days now (date a))
        && of_user db user a)
      (set_is_read 1) db
