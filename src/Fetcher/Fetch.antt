-- ===== src/Fetcher/Fetch.antt =====
-- srv/feeds/fetcher.go and srv/server.go: `FetchFeed`, `FetchAll` and the hook that the server hangs
-- into the fetcher. The feeds of one cycle are fetched one after another, in the order in which the
-- workers take them; what two fetches at once do to the database is left out.
use feedreader.Prelude.{
  ℕ, String, not, Option, none, some, List, [], ◌∷◌, ltb, ◌&&◌, ◌==◌, String_eq, if◌then◌else◌,
}
use feedreader.Prelude.Results.{Result, ok, err}
use feedreader.Strings.{TextTools}
use feedreader.Server.{Server}
use feedreader.CountsCache.{CountsCache, invalidate}
use feedreader.Db.Models.{Feed, Database}
use feedreader.Db.Calls.{
  Faults, ask, increment_feed_errors_call, reset_feed_errors_call, update_feed_site_url_call,
  list_feeds_to_fetch_call, get_feed_owner_call,
}
use feedreader.Db.Alerts.{get_feed_owner}
use feedreader.Db.Fetching.{
  increment_feed_errors, reset_feed_errors, update_feed_site_url, list_feeds_to_fetch,
}
use feedreader.Filter.Marking.{mark_excluded_articles_read_for_feed}
use feedreader.Alerts.Evaluate.{evaluate_alerts_for_feed}
use feedreader.Fetcher.Store.{FeedItem, store_items}
use feedreader.Fetcher.World.{World}
use feedreader.Fetcher.Download.{fetch_items}

-- the clock at the beginning of a fetch, and at the statements after the download
pub record FetchTimes : Type 0 where
  pub started : ℕ
  pub downloaded : ℕ

module _ (tools : TextTools) (faults : Faults) (now : ℕ) where
  -- the counts of the owner are dropped; a failed look-up and a feed without an owner drop nothing
  abbrev pub drop_counts : Option (Option (Option ℕ)) → Option CountsCache → Option CountsCache
  drop_counts none cache = cache
  drop_counts (some none) cache = cache
  drop_counts (some (some none)) cache = cache
  drop_counts (some (some (some owner))) cache = invalidate cache owner

  -- `srv.Fetcher.OnFeedFetched`
  unfoldable pub on_feed_fetched : ℕ → Server → Server
  unfolding mark_excluded_articles_read_for_feed evaluate_alerts_for_feed get_feed_owner
  on_feed_fetched feed s =
      let db =
        evaluate_alerts_for_feed tools faults now feed
          (mark_excluded_articles_read_for_feed tools faults feed s.db) in
      record {
        db = db;
        counts_cache =
            drop_counts (ask faults (get_feed_owner_call feed) (get_feed_owner db feed))
              s.counts_cache;
      }

module _ (world : World) (tools : TextTools) (faults : Faults) (times : FetchTimes) where
  -- a statement on the status of the feed: its error is logged
  abbrev pub set_failed : ℕ → String → Database → Database
  set_failed feed message db =
      if faults (increment_feed_errors_call feed)
      then db
      else increment_feed_errors message times.started times.downloaded feed db

  abbrev pub set_fetched : ℕ → Database → Database
  set_fetched feed db =
      if faults (reset_feed_errors_call feed)
      then db
      else reset_feed_errors times.started times.downloaded feed db

  abbrev pub set_site : Feed → String → Database → Database
  set_site feed site db =
      if (not (site == "") && not (site == feed.site_url))
        && not (faults (update_feed_site_url_call feed.id))
      then update_feed_site_url site feed.id db
      else db

  -- the hook runs if an item was stored
  abbrev pub after_store : ℕ → Option CountsCache → Database × ℕ → Server
  after_store feed cache (db, inserted) =
      let s : Server = record { db = db; counts_cache = cache } in
      let hooked = on_feed_fetched tools faults times.downloaded feed s in
      if ltb 0 inserted then hooked else s

  -- the error that `FetchFeed` returns, `none` for nil, and the server
  abbrev pub finish_fetch :
      Feed
      → Option CountsCache
      → Result (List FeedItem × String) × Database
      → Option String × Server
  finish_fetch feed cache (err e, db) =
      (some e, record { db = set_failed feed.id e db; counts_cache = cache })
  finish_fetch feed cache (ok (items, site), db) = (
    none,
    after_store feed.id cache (
        store_items faults feed.id times.downloaded items
          (set_site feed site (set_fetched feed.id db))),
  )

  unfoldable pub fetch_feed : Feed → Server → Option String × Server
  unfolding fetch_items increment_feed_errors reset_feed_errors update_feed_site_url store_items
      on_feed_fetched
  fetch_feed feed s =
      finish_fetch feed s.counts_cache (fetch_items world faults times.downloaded feed s.db)

module _ (world : World) (tools : TextTools) (faults : Faults) where
  -- the error of one feed stops no other
  unfoldable pub fetch_each : (ℕ → FetchTimes) → List Feed → Server → Server
  unfolding fetch_feed
  fetch_each times [] s = s
  fetch_each times (feed ∷ feeds) s =
      fetch_each times feeds (fetch_feed world tools faults (times feed.id) feed s).1

  unfoldable pub fetch_all : ℕ → (ℕ → FetchTimes) → Server → Server
  unfolding fetch_each list_feeds_to_fetch
  fetch_all now times s =
      elim (ask faults list_feeds_to_fetch_call (list_feeds_to_fetch now s.db)) [
        | none ↦ s
        | some feeds ↦ fetch_each times feeds s
      ]
