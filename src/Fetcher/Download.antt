-- ===== src/Fetcher/Download.antt =====
-- srv/feeds/fetcher.go: how the items of a feed are obtained, by the type of the feed.
use Prim.Native.String
use feedreader.Prelude.{
  ℕ, String, Option, none, some, List, [], ◌∷◌, map, nat_eq, ◌||◌, ◌==◌, String_eq, if◌then◌else◌,
}
use feedreader.Prelude.Int.{ℤ}
use feedreader.Prelude.Results.{Result, ok, err, wrap}
use feedreader.Youtube.Client.{YoutubeItem, Answer}
use feedreader.Db.Models.{Feed, ScraperModule, Database}
use feedreader.Db.Calls.{
  Faults, ask, get_scraper_module_call, get_user_setting_call, update_feed_scraper_config_call,
}
use feedreader.Db.SeenGuids.{get_user_setting}
use feedreader.Db.Fetching.{get_scraper_module_internal, update_feed_scraper_config}
use feedreader.Fetcher.Store.{FeedItem}
use feedreader.Fetcher.World.{
  World, YouTubePlaylistConfig, max_feed_body_bytes, http_error_description, glue, same, is_set,
  text, of_youtube, of_scraped, of_huggingface, same_int, new_playlist_items,
}

module _ (world : World) (faults : Faults) (now : ℕ) where
  abbrev status_error : ℕ → String
  status_error code = glue (
      "HTTP "
      ∷ world.decimal code
      ∷ " "
      ∷ world.status_text code
      ∷ ": "
      ∷ http_error_description code
      ∷ [])

  abbrev decoded : Answer → String → Result String
  decoded answer body =
      if answer.content_encoding == "gzip"
      then wrap (String.◌++◌ "failed to decompress gzip response: ") (world.gunzip body) ok
      else ok body

  -- the items and the URL of the site
  unfoldable pub fetch_rss_feed : String → Result (List FeedItem × String)
  unfolding http_error_description
  fetch_rss_feed url = wrap same (world.send url) (λ answer.
      if nat_eq answer.status 200
      then wrap same answer.body (λ body.
        wrap same (decoded answer body)
          (λ plain. world.parse (world.first_bytes max_feed_body_bytes plain)))
      else err (status_error answer.status))

  -- an error of the look-up and a missing module are one to the caller
  abbrev found_module : Database → String → Option ScraperModule
  found_module db name =
      elim (ask faults (get_scraper_module_call name) (get_scraper_module_internal db name)) [
        | none ↦ none
        | some found ↦ found
      ]

  unfoldable pub fetch_with_scraper : Feed → Database → Result (List FeedItem)
  unfolding get_scraper_module_internal
  fetch_with_scraper feed db = elim world.scraper_runner [
    | none ↦ err "scraper runner not available"
    | some run ↦ elim (found_module db (text feed.scraper_module)) [
      -- the text of the database's error is left out
      | none ↦ err "get scraper module"
      | some module_row ↦ wrap same (world.send feed.url) (λ answer.
          wrap (String.◌++◌ "reading response body: ") answer.body (λ body.
            wrap same
              (run module_row.script (world.first_bytes max_feed_body_bytes body) feed.url
                (text feed.scraper_config))
              (λ items. ok (map of_scraped items))))
    ]
  ]

  unfoldable pub fetch_hugging_face : Feed → Result (List FeedItem)
  fetch_hugging_face feed =
      if is_set feed.scraper_config
      then wrap (String.◌++◌ "parse huggingface config: ")
          (world.huggingface (text feed.scraper_config))
          (λ fetched.
            wrap (String.◌++◌ "fetch from huggingface: ") fetched
              (λ items. ok (map of_huggingface items)))
      else err "huggingface config not set"

  abbrev key_of : Option (Option String) → String
  key_of none = ""
  key_of (some value) = text value

  -- the user's key for the service, the empty text where there is none or the query fails
  abbrev pub youtube_api_key : ℕ → Database → String
  youtube_api_key user db =
      key_of (ask faults (get_user_setting_call user) (get_user_setting db user "youtubeApiKey"))

  -- the total is stored as the known count where it differs; a failed UPDATE is logged
  abbrev pub remember_count : Feed → YouTubePlaylistConfig → ℤ → Database → Database
  remember_count feed config total db =
      if same_int total config.last_known_count || faults (update_feed_scraper_config_call feed.id)
      then db
      else update_feed_scraper_config
          (world.encode_playlist (record config { last_known_count = total })) now feed.id db

  abbrev pub playlist_answer :
      Feed
      → YouTubePlaylistConfig
      → Result (List YoutubeItem × ℤ)
      → Database
      → Result (List FeedItem) × Database
  playlist_answer feed config (err e) db = (err (String.◌++◌ "youtube API: " e), db)
  playlist_answer feed config (ok (items, total)) db = (
    ok (map of_youtube (new_playlist_items config.last_known_count items)),
    remember_count feed config total db,
  )

  abbrev first_part : Result (List FeedItem × String) → Result (List FeedItem)
  first_part (err e) = err e
  first_part (ok (items, url)) = ok items

  -- without a key the feed of the playlist is read
  abbrev pub playlist_by_key :
      Feed → YouTubePlaylistConfig → String → Database → Result (List FeedItem) × Database
  playlist_by_key feed config key db =
      if key == ""
      then (
        first_part (
            fetch_rss_feed (
              String.◌++◌ "https://www.youtube.com/feeds/videos.xml?playlist_id="
                config.playlist_id)),
        db,
      )
      else playlist_answer feed config (world.youtube key config.playlist_id) db

  abbrev pub playlist_of_user :
      Feed → YouTubePlaylistConfig → Option ℕ → Database → Result (List FeedItem) × Database
  playlist_of_user feed config none db = (err "feed has no user_id", db)
  playlist_of_user feed config (some user) db =
      playlist_by_key feed config (youtube_api_key user db) db

  abbrev pub playlist_of_config :
      Feed → Result YouTubePlaylistConfig → Database → Result (List FeedItem) × Database
  playlist_of_config feed (err e) db = (err (String.◌++◌ "parse youtube-playlist config: " e), db)
  playlist_of_config feed (ok config) db =
      if config.playlist_id == ""
      then (err "playlist_id not set in config", db)
      else playlist_of_user feed config feed.user_id db

  unfoldable pub fetch_youtube_playlist : Feed → Database → Result (List FeedItem) × Database
  unfolding fetch_rss_feed new_playlist_items update_feed_scraper_config
  fetch_youtube_playlist feed db =
      if is_set feed.scraper_config
      then playlist_of_config feed (world.decode_playlist (text feed.scraper_config)) db
      else (err "youtube-playlist config not set", db)

  abbrev without_url : Result (List FeedItem) → Result (List FeedItem × String)
  without_url (err e) = err e
  without_url (ok items) = ok (items, "")

  -- the `switch` of `FetchFeed`
  unfoldable pub fetch_items : Feed → Database → Result (List FeedItem × String) × Database
  unfolding fetch_rss_feed fetch_with_scraper fetch_hugging_face fetch_youtube_playlist
  fetch_items feed db =
      if feed.feed_type == "rss" || feed.feed_type == "atom"
      then (fetch_rss_feed feed.url, db)
      else if feed.feed_type == "scraper"
      then (
        if is_set feed.scraper_module
            then without_url (fetch_with_scraper feed db)
            else err "scraper module not configured",
        db,
      )
      else if feed.feed_type == "huggingface"
      then (without_url (fetch_hugging_face feed), db)
      else if feed.feed_type == "youtube-playlist"
      then (let (result, db') = fetch_youtube_playlist feed db in (without_url result, db'))
      else (err (String.◌++◌ "unknown feed type: " feed.feed_type), db)
