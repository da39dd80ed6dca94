-- ===== src/Fetcher/Schedule.antt =====
-- srv/feeds/fetcher.go and db/dbgen/feeds.sql.go: when a feed is fetched again.
use feedreader.Prelude.{
  ltb, leb, ◌*◌, ap, if◌then◌else◌, ℕ, String, ◌≡◌, refl, ◌∙◌, Bool, false, not, Option, none, some,
  List, nat_eq, ◌+◌, any, any-keep, ◌&&◌, ◌==◌, String_eq, arith, keep,
}
use feedreader.Prelude.Int.{ℤ, pos, negsuc}
use feedreader.Prelude.Sorting.{any-order_by}
use feedreader.Prelude.Results.{Result, ok, err}
use feedreader.Strings.{TextTools}
use feedreader.Server.{Server}
use feedreader.CountsCache.{CountsCache}
use feedreader.Db.Models.{Feed, Database}
use feedreader.Db.Calls.{Faults, increment_feed_errors_call, reset_feed_errors_call}
use feedreader.Db.Fetching.{
  increment_feed_errors, reset_feed_errors, failed_feed, fetched_feed, waited, backoff, feed_due,
  fetched_before, list_feeds_to_fetch,
}
use feedreader.Fetcher.Store.{FeedItem}
use feedreader.Fetcher.World.{World}
use feedreader.Fetcher.Download.{fetch_items}
use feedreader.Fetcher.Fetch.{FetchTimes, finish_fetch, fetch_feed}
use feedreader.Fetcher.Feeds.{any-update_feed, fetch_items-any, finish-any}

-- the feed is among those that the next cycle fetches
abbrev pub is_listed : ℕ → ℕ → Database → Bool
is_listed now id db = any (λ f. nat_eq f.id id) (list_feeds_to_fetch now db)

-- the row of the feed is due
abbrev pub due_row : ℕ → ℕ → Feed → Bool
due_row now id f = feed_due now f && nat_eq f.id id

-- the interval, taken `factor` times, has passed; without one, or with a negative one, it never has
abbrev pub passed : Option ℤ → ℕ → ℕ → ℕ → Bool
passed none factor started now = false
passed (some (negsuc n)) factor started now = false
passed (some (pos minutes)) factor started now = ltb (started + 60 * (minutes * factor)) now

abbrev pub at_most_24 : ℕ → ℕ
at_most_24 n = if leb n 24 then n else 24

-- The row of the feed is due at a time, from the outcome of the fetch and the row before it.
abbrev pub due_after : Option String → ℕ → ℕ → ℕ → Feed → Bool
due_after none started now id f =
    nat_eq f.id id
    && (not (f.feed_type == "newsletter") && passed f.fetch_interval_minutes 1 started now)
due_after (some e) started now id f =
    nat_eq f.id id
    && (not (f.feed_type == "newsletter")
        && passed f.fetch_interval_minutes (at_most_24 (f.consecutive_errors + 1)) started now)

waited_success : (i : Option ℤ) (at now : ℕ) → waited i 0 at now ≡ passed i 1 at now
waited_success none at now = refl
waited_success (some (negsuc n)) at now = refl
waited_success (some (pos i)) at now = refl

waited_failure :
    (i : Option ℤ) (errors at now : ℕ)
    → waited i (errors + 1) at now ≡ passed i (at_most_24 (errors + 1)) at now
waited_failure none errors at now = refl
waited_failure (some (negsuc n)) errors at now = refl
waited_failure (some (pos i)) errors at now =
    ap (λ n. ltb (at + 60 * (i * n)) now) (backoff_at_most errors)
  where
    backoff_at_most : (errors : ℕ) → backoff (errors + 1) ≡ at_most_24 (errors + 1)
    backoff_at_most errors = ground arith

listed-any : (now id : ℕ) (db : Database) → is_listed now id db ≡ any (due_row now id) db.feeds
unfolding list_feeds_to_fetch
listed-any now id db =
    any-order_by (λ (a b : Feed). fetched_before a.last_fetched_at b.last_fetched_at)
      (λ f. nat_eq f.id id) (keep (feed_due now) db.feeds)
    ∙ any-keep (λ f. nat_eq f.id id) (feed_due now) db.feeds

module _ (world : World) (tools : TextTools) (faults : Faults) (times : FetchTimes) (now : ℕ) where
  finish-due :
      (feed : Feed) (cache : Option CountsCache) (r : Result (List FeedItem × String))
      (db : Database)
      → faults (increment_feed_errors_call feed.id) ≡ false
      → faults (reset_feed_errors_call feed.id) ≡ false
      → (let finished = finish_fetch world tools faults times feed cache (r, db) in
          any (due_row now feed.id) finished.1.db.feeds
          ≡ any (due_after finished.0 times.started now feed.id) db.feeds)
  unfolding increment_feed_errors reset_feed_errors
  finish-due feed cache (err e) db h k = rw h (
      any-update_feed (due_row now feed.id) (due_after (some e) times.started now feed.id) feed.id
        (failed_feed e times.started times.downloaded) db
        (λ f same.
          ground
            (arith, waited_failure f.fetch_interval_minutes f.consecutive_errors times.started now))
        (λ f other. ground arith))
  finish-due feed cache (ok (items, site)) db h k =
      finish-any world tools faults times (due_row now feed.id) (λ f c n. refl) (λ f u. refl) feed
        cache items site db
      ∙ rw k (
          any-update_feed (due_row now feed.id) (due_after none times.started now feed.id) feed.id
            (fetched_feed times.started times.downloaded) db
            (λ f same. ground (arith, waited_success f.fetch_interval_minutes times.started now))
            (λ f other. ground arith))

  due_after-fetch_items :
      (outcome : Option String) (feed : Feed) (db : Database)
      → any
          (due_after outcome times.started now feed.id)
          (fetch_items world faults times.downloaded feed db).1.feeds
        ≡ any (due_after outcome times.started now feed.id) db.feeds
  due_after-fetch_items none feed db =
      fetch_items-any world tools faults times (due_after none times.started now feed.id)
        (λ f c n. refl) (λ f u. refl) feed db
  due_after-fetch_items (some e) feed db =
      fetch_items-any world tools faults times (due_after (some e) times.started now feed.id)
        (λ f c n. refl) (λ f u. refl) feed db

  -- After a fetch of a feed whose status could be written, `ListFeedsToFetch` names the feed
  -- exactly when its row has an interval that is not negative and is no newsletter's, and the
  -- interval has passed since the fetch began: once after a success, and after a failure as many times as the feed has failed in
  -- a row, this one included, but at most 24 times.
  pub fetch_feed-listed :
      (feed : Feed) (s : Server)
      → faults (increment_feed_errors_call feed.id) ≡ false
      → faults (reset_feed_errors_call feed.id) ≡ false
      → (let fetched = fetch_feed world tools faults times feed s in
          is_listed now feed.id fetched.1.db
          ≡ any (due_after fetched.0 times.started now feed.id) s.db.feeds)
  unfolding fetch_feed
  fetch_feed-listed feed s h k =
      let (result, db) = fetch_items world faults times.downloaded feed s.db in
      let finished = finish_fetch world tools faults times feed s.counts_cache (result, db) in
      listed-any now feed.id finished.1.db
      ∙ finish-due feed s.counts_cache result db h k
      ∙ due_after-fetch_items finished.0 feed s.db
