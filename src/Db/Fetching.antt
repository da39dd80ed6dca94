-- ===== src/Db/Fetching.antt =====
-- db/dbgen/feeds.sql.go and scrapers.sql.go: the queries of the feed fetcher. A time is a number of
-- seconds.
use feedreader.Prelude.{
  ℕ, String, Bool, true, false, not, Option, none, some, List, [], ◌∷◌, map, nat_eq, ltb, ◌+◌, ◌*◌,
  ◌&&◌, ◌==◌, String_eq, keep, if◌then◌else◌,
}
use feedreader.Prelude.Int.{ℤ, pos, negsuc}
use feedreader.Prelude.Sorting.{order_by}
use feedreader.Db.Models.{Feed, ScraperModule, Database}

-- `UPDATE feeds SET … WHERE id = ?`
abbrev pub update_feed : ℕ → (Feed → Feed) → Database → Database
update_feed id f db = record db { feeds = map (λ a. if nat_eq a.id id then f a else a) db.feeds }

-- `at` is the time of fetching, and `now` the clock of the statement
abbrev pub failed_feed : String → ℕ → ℕ → Feed → Feed
failed_feed message at now f = record f {
  consecutive_errors = f.consecutive_errors + 1;
  last_error = some message;
  last_fetched_at = some at;
  updated_at = now;
}

abbrev pub fetched_feed : ℕ → ℕ → Feed → Feed
fetched_feed at now f = record f {
  consecutive_errors = 0;
  last_error = none;
  last_fetched_at = some at;
  updated_at = now;
}

unfoldable pub increment_feed_errors : String → ℕ → ℕ → ℕ → Database → Database
increment_feed_errors message at now id db = update_feed id (failed_feed message at now) db

unfoldable pub reset_feed_errors : ℕ → ℕ → ℕ → Database → Database
reset_feed_errors at now id db = update_feed id (fetched_feed at now) db

unfoldable pub update_feed_site_url : String → ℕ → Database → Database
update_feed_site_url site_url id db = update_feed id (λ f. record f { site_url = site_url }) db

unfoldable pub update_feed_scraper_config : String → ℕ → ℕ → Database → Database
update_feed_scraper_config config now id db =
    update_feed id (λ f. record f { scraper_config = some config; updated_at = now }) db

-- `MIN(MAX(consecutive_errors, 1), 24)`
abbrev pub backoff : ℕ → ℕ
backoff errors = if ltb errors 1 then 1 else if ltb errors 24 then errors else 24

-- `datetime(last_fetched_at, '+' || minutes || ' minutes') < datetime('now')`: a NULL interval makes
-- the sum NULL, and so does a negative one, since '+-5 minutes' is no modifier of a date; NULL is
-- less than nothing.
abbrev pub waited : Option ℤ → ℕ → ℕ → ℕ → Bool
waited none errors at now = false
waited (some (negsuc n)) errors at now = false
waited (some (pos interval)) errors at now = ltb (at + 60 * (interval * backoff errors)) now

abbrev pub due_time : Option ℕ → Option ℤ → ℕ → ℕ → Bool
due_time none interval errors now = true
due_time (some at) interval errors now = waited interval errors at now

abbrev pub feed_due : ℕ → Feed → Bool
feed_due now f =
    not (f.feed_type == "newsletter")
    && due_time f.last_fetched_at f.fetch_interval_minutes f.consecutive_errors now

-- NULLS FIRST
abbrev pub fetched_before : Option ℕ → Option ℕ → Bool
fetched_before none none = false
fetched_before none (some b) = true
fetched_before (some a) none = false
fetched_before (some a) (some b) = ltb a b

unfoldable pub list_feeds_to_fetch : ℕ → Database → List Feed
unfolding order_by
list_feeds_to_fetch now db =
    order_by (λ a b. fetched_before a.last_fetched_at b.last_fetched_at)
      (keep (feed_due now) db.feeds)

abbrev find_module : String → List ScraperModule → Option ScraperModule
find_module name [] = none
find_module name (m ∷ modules) =
    let later = find_module name modules in if m.name == name then some m else later

-- `none` is sql.ErrNoRows; names are not tied to a user
unfoldable pub get_scraper_module_internal : Database → String → Option ScraperModule
get_scraper_module_internal db name = find_module name db.scraper_modules
