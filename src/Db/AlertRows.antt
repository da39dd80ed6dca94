-- ===== src/Db/AlertRows.antt =====
-- db/dbgen/alerts.sql.go: the statements that the handlers of alerts run. Foreign keys are enforced,
-- and the deletion of an alert takes its noted articles along (migration 016).
use feedreader.Prelude.{
  ℕ, String, Bool, not, Option, none, some, [], ◌∷◌, ◌++◌, map, nat_eq, ◌+◌, ◌&&◌, any, keep,
  if◌then◌else◌,
}
use feedreader.Prelude.Int.{ℤ}
use feedreader.Db.Models.{ArticleAlert, NewsAlert, Database}
use feedreader.Db.Calls.{is_id}

-- the columns that a request sets
pub record CreateAlertParams : Type 0 where
  pub name : String
  pub pattern : String
  pub is_regex : ℕ
  pub match_field : String

-- `id = ? AND user_id = ?`
abbrev pub alert_of : ℤ → ℕ → NewsAlert → Bool
alert_of id user a = is_id id a.id && nat_eq a.user_id user

-- `alert_id IN (SELECT id FROM news_alerts WHERE user_id = ?)`
abbrev pub noted_for : Database → ℕ → ArticleAlert → Bool
noted_for db user r = any (λ a. nat_eq a.id r.alert_id && nat_eq a.user_id user) db.news_alerts

unfoldable pub create_alert : CreateAlertParams → ℕ → ℕ → Database → Database
create_alert p user now db = record db {
  news_alerts =
      db.news_alerts
      ++ record {
        id = db.next_news_alert_id;
        user_id = user;
        name = p.name;
        pattern = p.pattern;
        is_regex = p.is_regex;
        match_field = p.match_field;
        created_at = now;
      }
        ∷ [];
  next_news_alert_id = db.next_news_alert_id + 1;
}

abbrev pub changed_alert : CreateAlertParams → NewsAlert → NewsAlert
changed_alert p a = record a {
  name = p.name;
  pattern = p.pattern;
  is_regex = p.is_regex;
  match_field = p.match_field;
}

-- `none` is sql.ErrNoRows, where the RETURNING clause has no row
unfoldable pub update_alert : CreateAlertParams → ℤ → ℕ → Database → Option Database
update_alert p id user db =
    if any (alert_of id user) db.news_alerts
    then some (record db {
      news_alerts = map (λ a. if alert_of id user a then changed_alert p a else a) db.news_alerts;
    })
    else none

unfoldable pub delete_alert : ℤ → ℕ → Database → Database
delete_alert id user db = record db {
  news_alerts = keep (λ a. not (alert_of id user a)) db.news_alerts;
  article_alerts =
      keep (λ r. not (any (λ a. alert_of id user a && nat_eq a.id r.alert_id) db.news_alerts))
        db.article_alerts;
}

abbrev set_dismissed : (ArticleAlert → Bool) → ℕ → Database → Database
set_dismissed p n db = record db {
  article_alerts = map (λ r. if p r then record r { dismissed = n } else r) db.article_alerts;
}

unfoldable pub dismiss_all_for_alert : ℤ → ℕ → Database → Database
dismiss_all_for_alert alert user db =
    set_dismissed (λ r. is_id alert r.alert_id && noted_for db user r) 1 db

unfoldable pub dismiss_article_alert : ℤ → ℕ → Database → Database
dismiss_article_alert id user db = set_dismissed (λ r. is_id id r.id && noted_for db user r) 1 db

unfoldable pub undismiss_article_alert : ℤ → ℕ → Database → Database
undismiss_article_alert id user db = set_dismissed (λ r. is_id id r.id && noted_for db user r) 0 db
