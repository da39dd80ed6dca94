-- ===== src/Db/Models.antt =====
-- db/dbgen/models.go: the rows of the tables, and the database as a record of tables. A nullable
-- column is an `Option`. Identifiers, flags and counters are natural numbers (SQLite hands out
-- identifiers from 1 up), and a time is a number of seconds.
use feedreader.Prelude.{ℕ, String, Option, List}
use feedreader.Prelude.Int.{ℤ}

pub record Article : Type 0 where
  pub id : ℕ
  pub feed_id : ℕ
  pub guid : String
  pub title : String
  pub url : Option String
  pub author : Option String
  pub content : Option String
  pub summary : Option String
  pub image_url : Option String
  pub published_at : Option ℕ
  pub fetched_at : ℕ
  pub is_read : Option ℕ
  pub is_starred : Option ℕ

pub record ArticleAlert : Type 0 where
  pub id : ℕ
  pub article_id : ℕ
  pub alert_id : ℕ
  pub matched_at : ℕ
  pub dismissed : ℕ

pub record Category : Type 0 where
  pub id : ℕ
  pub name : String
  pub created_at : ℕ
  pub user_id : Option ℕ
  pub sort_order : Option ℤ
  pub parent_id : Option ℕ

pub record CategoryExclusion : Type 0 where
  pub id : ℕ
  pub category_id : ℕ
  pub exclusion_type : String
  pub pattern : String
  pub is_regex : Option ℕ
  pub created_at : ℕ

pub record Feed : Type 0 where
  pub id : ℕ
  pub name : String
  pub url : String
  pub feed_type : String
  pub scraper_module : Option String
  pub scraper_config : Option String
  pub last_fetched_at : Option ℕ
  pub last_error : Option String
  pub fetch_interval_minutes : Option ℤ
  pub created_at : ℕ
  pub updated_at : ℕ
  pub user_id : Option ℕ
  pub content_filters : Option String
  pub site_url : String
  pub skip_retention : ℕ
  pub consecutive_errors : ℕ

pub record FeedCategory : Type 0 where
  pub feed_id : ℕ
  pub category_id : ℕ

pub record NewsAlert : Type 0 where
  pub id : ℕ
  pub user_id : ℕ
  pub name : String
  pub pattern : String
  pub is_regex : ℕ
  pub match_field : String
  pub created_at : ℕ

pub record QueueArticle : Type 0 where
  pub id : ℕ
  pub user_id : ℕ
  pub article_id : ℕ
  pub added_at : ℕ

pub record ScraperModule : Type 0 where
  pub id : ℕ
  pub name : String
  pub description : Option String
  pub script : String
  pub script_type : String
  pub enabled : Option ℕ
  pub created_at : ℕ
  pub updated_at : ℕ
  pub user_id : Option ℕ

pub record SeenGuid : Type 0 where
  pub feed_id : ℕ
  pub guid : String
  pub seen_at : ℕ

pub record User : Type 0 where
  pub id : ℕ
  pub external_id : String
  pub email : String
  pub created_at : ℕ
  pub last_seen_at : ℕ

pub record UserSetting : Type 0 where
  pub user_id : ℕ
  pub key : String
  pub value : String

-- `next_*` is the counter of an AUTOINCREMENT column.
pub record Database : Type 0 where
  pub users : List User
  pub next_user_id : ℕ
  pub user_settings : List UserSetting
  pub feeds : List Feed
  pub categories : List Category
  pub feed_categories : List FeedCategory
  pub category_exclusions : List CategoryExclusion
  pub articles : List Article
  pub next_article_id : ℕ
  pub queue_articles : List QueueArticle
  pub next_queue_article_id : ℕ
  pub seen_guids : List SeenGuid
  pub scraper_modules : List ScraperModule
  pub news_alerts : List NewsAlert
  pub next_news_alert_id : ℕ
  pub article_alerts : List ArticleAlert
  pub next_article_alert_id : ℕ
