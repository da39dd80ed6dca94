-- ===== src/Db/Alerts.antt =====
-- db/dbgen/alerts.sql.go and feeds.sql.go: the queries behind the evaluation of news alerts.
use feedreader.Prelude.{
  ℕ, Bool, Option, none, some, List, [], ◌∷◌, ◌++◌, nat_eq, ltb, ◌+◌, ◌&&◌, any, keep,
  if◌then◌else◌,
}
use feedreader.Prelude.Sorting.{order_by}
use feedreader.Db.Models.{Article, ArticleAlert, Feed, NewsAlert, Database}
use feedreader.Db.Calls.{is_zero, sql_eq}

abbrev find_owner : List Feed → ℕ → Option (Option ℕ)
find_owner [] feed = none
find_owner (f ∷ feeds) feed =
    let later = find_owner feeds feed in if nat_eq f.id feed then some f.user_id else later

-- `none` is sql.ErrNoRows
unfoldable pub get_feed_owner : Database → ℕ → Option (Option ℕ)
get_feed_owner db feed = find_owner db.feeds feed

unfoldable pub list_alerts_by_user : Database → ℕ → List NewsAlert
unfolding order_by
list_alerts_by_user db user =
    order_by (λ a b. ltb b.created_at a.created_at)
      (keep (λ a. nat_eq a.user_id user) db.news_alerts)

-- `id` is the key of `feeds`, so the JOIN repeats no article
abbrev pub is_unread_of : Database → ℕ → ℕ → Article → Bool
is_unread_of db feed user a =
    nat_eq a.feed_id feed
    && (any (λ f. nat_eq f.id a.feed_id && sql_eq f.user_id (some user)) db.feeds
        && is_zero a.is_read)

unfoldable pub list_unread_articles_by_feed_for_alerts : Database → ℕ → ℕ → List Article
unfolding order_by
list_unread_articles_by_feed_for_alerts db feed user =
    order_by (λ a b. ltb b.fetched_at a.fetched_at) (keep (is_unread_of db feed user) db.articles)

abbrev pub same_pair : ℕ → ℕ → ArticleAlert → Bool
same_pair article alert r = nat_eq r.article_id article && nat_eq r.alert_id alert

-- INSERT OR IGNORE at the key `(article_id, alert_id)`
unfoldable pub insert_article_alert : ℕ → ℕ → ℕ → Database → Database
insert_article_alert article alert now db =
    if any (same_pair article alert) db.article_alerts then db else record db {
      article_alerts =
          db.article_alerts
          ++ record {
            id = db.next_article_alert_id;
            article_id = article;
            alert_id = alert;
            matched_at = now;
            dismissed = 0;
          }
            ∷ [];
      next_article_alert_id = db.next_article_alert_id + 1;
    }
