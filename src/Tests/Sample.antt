-- ===== src/Tests/Sample.antt =====
-- A database of two users with a feed each, for the examples.
use feedreader.Prelude.{ℕ, String, false, none, some, List, [], ◌∷◌}
use feedreader.Prelude.Int.{pos}
use feedreader.Strings.{TextTools, contains}
use feedreader.Db.Models.{Article, Feed, User, Database}
use feedreader.Db.Calls.{Faults}
use feedreader.Fetcher.Store.{FeedItem}

-- regular expressions that are plain texts, and runes without case
abbrev pub plain_tools : TextTools
plain_tools = record {
  to_lower_rune = λ c. c;
  compile_regexp = λ pattern. some (λ text. contains text pattern);
}

abbrev pub no_faults : Faults
no_faults call = false

abbrev pub feed_of : ℕ → ℕ → Feed
feed_of id user = record {
  id = id;
  name = "feed";
  url = "https://example.org/feed";
  feed_type = "rss";
  scraper_module = none;
  scraper_config = none;
  last_fetched_at = none;
  last_error = none;
  fetch_interval_minutes = some (pos 60);
  created_at = 0;
  updated_at = 0;
  user_id = some user;
  content_filters = none;
  site_url = "";
  skip_retention = 0;
  consecutive_errors = 0;
}

abbrev pub article_of : ℕ → ℕ → String → String → ℕ → Article
article_of id feed guid title starred = record {
  id = id;
  feed_id = feed;
  guid = guid;
  title = title;
  url = none;
  author = none;
  content = none;
  summary = none;
  image_url = none;
  published_at = none;
  fetched_at = 0;
  is_read = some 0;
  is_starred = some starred;
}

abbrev pub user_of : ℕ → String → User
user_of id key = record {
  id = id;
  external_id = key;
  email = key;
  created_at = 0;
  last_seen_at = 0;
}

-- article 1 is plain, article 2 starred, article 3 in a queue; a keyword rule of the first user's
-- category, which holds feed 1, hits article 1
abbrev pub sample_db : Database
sample_db = record {
  users = user_of 1 "ann" ∷ user_of 2 "bob" ∷ [];
  next_user_id = 3;
  user_settings = record { user_id = 1; key = "retentionDays"; value = "7" } ∷ [];
  feeds = feed_of 1 1 ∷ feed_of 2 2 ∷ [];
  categories =
      record {
        id = 5;
        name = "news";
        created_at = 0;
        user_id = some 1;
        sort_order = none;
        parent_id = none;
      }
      ∷ [];
  feed_categories = record { feed_id = 1; category_id = 5 } ∷ [];
  category_exclusions =
      record {
        id = 1;
        category_id = 5;
        exclusion_type = "keyword";
        pattern = "advert";
        is_regex = some 0;
        created_at = 0;
      }
      ∷ [];
  articles =
      article_of 1 1 "a" "an advert" 0
      ∷ article_of 2 1 "b" "a star" 1
      ∷ article_of 3 1 "c" "for later" 0
      ∷ [];
  next_article_id = 4;
  queue_articles = record { id = 1; user_id = 1; article_id = 3; added_at = 0 } ∷ [];
  next_queue_article_id = 2;
  seen_guids = record { feed_id = 2; guid = "old"; seen_at = 0 } ∷ [];
  scraper_modules = [];
  news_alerts = [];
  next_news_alert_id = 1;
  article_alerts = [];
  next_article_alert_id = 1;
}

abbrev pub item_of : String → FeedItem
item_of guid = record {
  guid = guid;
  title = "again";
  url = "";
  author = "";
  content = "";
  summary = "";
  image_url = "";
  published_at = none;
}

abbrev pub two_items : List FeedItem
two_items = item_of "a" ∷ item_of "new" ∷ []
