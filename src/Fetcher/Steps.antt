-- ===== src/Fetcher/Steps.antt =====
-- What the statements of `FetchFeed` of srv/feeds/fetcher.go keep, all of it keeps.
use feedreader.Prelude.{ℕ, String, Option, none, some, List, ◌||◌, ◌==◌, String_eq, if_holds}
use feedreader.Prelude.Int.{ℤ}
use feedreader.Prelude.Results.{Result, ok, err}
use feedreader.Strings.{TextTools}
use feedreader.Server.{Server}
use feedreader.Youtube.Client.{YoutubeItem}
use feedreader.Db.Models.{Feed, Database}
use feedreader.Db.Calls.{Faults, update_feed_scraper_config_call}
use feedreader.Db.Articles.{mark_article_read_internal}
use feedreader.Db.Alerts.{insert_article_alert}
use feedreader.Db.Fetching.{update_feed_scraper_config}
use feedreader.Filter.Steps.{mark_for_feed_induction}
use feedreader.Alerts.Steps.{evaluate_alerts_induction}
use feedreader.Fetcher.Store.{FeedItem}
use feedreader.Fetcher.World.{World, YouTubePlaylistConfig, is_set, text, same_int}
use feedreader.Fetcher.Download.{
  playlist_answer, playlist_of_user, playlist_of_config, fetch_youtube_playlist, fetch_items,
}
use feedreader.Fetcher.Fetch.{FetchTimes, on_feed_fetched}

-- the download changes nothing but the configuration of a playlist feed
module _ (world : World) (faults : Faults) (now : ℕ) (P : Database → Type 0) (feed : Feed)
    (step : (config : String) (db : Database)
      → P db
      → P (update_feed_scraper_config config now feed.id db)) where
  playlist_answer_induction :
      (config : YouTubePlaylistConfig) (r : Result (List YoutubeItem × ℤ)) (db : Database)
      → P db
      → P (playlist_answer world faults now feed config r db).1
  playlist_answer_induction config (err e) db h = h
  playlist_answer_induction config (ok (items, total)) db h =
      if_holds P
        (same_int total config.last_known_count || faults (update_feed_scraper_config_call feed.id))
        db _ h (step _ db h)

  playlist_of_user_induction :
      (config : YouTubePlaylistConfig) (user : Option ℕ) (db : Database)
      → P db
      → P (playlist_of_user world faults now feed config user db).1
  playlist_of_user_induction config none db h = h
  playlist_of_user_induction config (some user) db h =
      if_holds (λ (r : Result (List FeedItem) × Database). P r.1) _ _ _ h
        (playlist_answer_induction config _ db h)

  playlist_of_config_induction :
      (config : Result YouTubePlaylistConfig) (db : Database)
      → P db
      → P (playlist_of_config world faults now feed config db).1
  playlist_of_config_induction (err e) db h = h
  playlist_of_config_induction (ok config) db h =
      if_holds (λ (r : Result (List FeedItem) × Database). P r.1) (config.playlist_id == "") _ _ h
        (playlist_of_user_induction config feed.user_id db h)

  youtube_induction : (db : Database) → P db → P (fetch_youtube_playlist world faults now feed db).1
  unfolding fetch_youtube_playlist
  youtube_induction db h =
      if_holds (λ (r : Result (List FeedItem) × Database). P r.1) (is_set feed.scraper_config)
        (playlist_of_config world faults now feed (world.decode_playlist (text feed.scraper_config))
          db)
        (err "youtube-playlist config not set", db)
        (playlist_of_config_induction (world.decode_playlist (text feed.scraper_config)) db h) h

  pub fetch_items_induction : (db : Database) → P db → P (fetch_items world faults now feed db).1
  unfolding fetch_items
  fetch_items_induction db h =
      let Q = λ (r : Result (List FeedItem × String) × Database). P r.1 in
      if_holds Q (feed.feed_type == "rss" || feed.feed_type == "atom") _ _ h (
        if_holds Q (feed.feed_type == "scraper") _ _ h (
          if_holds Q (feed.feed_type == "huggingface") _ _ h
            (if_holds Q (feed.feed_type == "youtube-playlist") _ _ (youtube_induction db h) h)))

-- the hook and what comes before it change articles, alerts' articles and the URL of the site
module _ (world : World) (tools : TextTools) (faults : Faults) (times : FetchTimes)
    (P : Database → Type 0)
    (marked : (id : ℕ) (db : Database) → P db → P (mark_article_read_internal id db))
    (alerted : (article alert : ℕ) (db : Database)
      → P db
      → P (insert_article_alert article alert times.downloaded db)) where
  pub on_feed_fetched_induction :
      (feed : ℕ) (s : Server) → P s.db → P (on_feed_fetched tools faults times.downloaded feed s).db
  unfolding on_feed_fetched
  on_feed_fetched_induction feed s h =
      evaluate_alerts_induction tools faults times.downloaded P alerted feed _
        (mark_for_feed_induction tools faults P marked feed s.db h)
