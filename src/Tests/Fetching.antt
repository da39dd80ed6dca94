-- ===== src/Tests/Fetching.antt =====
-- The theorems on fetching at concrete feeds.
use mathlib.Core.List.{Memᴰ}
use feedreader.Prelude.{
  String, ◌≡◌, refl, false, none, some, List, [], ◌∷◌, map, ◌==◌, String_eq, ◌||◌, any, ◌&&◌, arith,
  if◌then◌else◌,
}
use feedreader.Prelude.Int.{ℤ, pos}
use feedreader.Prelude.Results.{Result, ok, err}
use feedreader.Server.{Server}
use feedreader.CountsCache.{invalidate, new_counts_cache}
use feedreader.Db.Models.{Feed, Database}
use feedreader.Tests.Sample.{plain_tools, no_faults, sample_db, feed_of}
use feedreader.Youtube.Client.{
  Net, YoutubeItem, PlaylistSnippet, PlaylistItemsResponse, fetch_page, fetch_playlist_items,
}
use feedreader.Youtube.Pages.{items_of, fetch_playlist_items-Linked}
use feedreader.Db.Alerts.{get_feed_owner}
use feedreader.Db.SeenGuids.{get_user_setting}
use feedreader.Alerts.Matched.{holds, owned_match}
use feedreader.Fetcher.World.{World, YouTubePlaylistConfig, of_youtube, new_playlist_items}
use feedreader.Fetcher.Download.{fetch_youtube_playlist}
use feedreader.Fetcher.Fetch.{FetchTimes, fetch_feed, on_feed_fetched}
use feedreader.Fetcher.Schedule.{is_listed, due_after, fetch_feed-listed}
use feedreader.Fetcher.Hook.{missed, remains, on_feed_fetched-exact}
use feedreader.Fetcher.Control.{
  Reach, here, next, start_stopped, stop_running, enter, fetching, selecting, new_control,
  stopped_loops_end, restarts_add_loops, running, selectings, is_closed,
}
use feedreader.Fetcher.Playlist.{counted_row, fetch_youtube_playlist-again}

-- two pages of one video each
abbrev snippet_of : String → PlaylistSnippet
snippet_of id = record {
  published_at = "";
  title = "video";
  description = "";
  thumbnails = record { high = none; medium = none; default = none };
  video_owner_channel_title = "";
  position = pos 0;
  video_id = id;
}

abbrev page_of : String → String → PlaylistItemsResponse
page_of token id = record {
  next_page_token = token;
  total_results = pos 2;
  items = snippet_of id ∷ [];
  error = none;
}

-- the token is the whole query, and stands for the page in the body
abbrev two_pages : Net
two_pages = record {
  send = λ url. ok (record { status = 200; content_encoding = ""; body = ok url });
  first_bytes = λ n s. s;
  encode_query = λ fields. any_token fields;
  decode_page = λ body.
      if body == "https://www.googleapis.com/youtube/v3/playlistItems?next"
      then ok (page_of "" "b")
      else ok (page_of "next" "a");
  escape_string = λ s. s;
  parse_rfc3339 = λ s. none;
  decimal = λ n. "";
}
  where
    any_token : List (String × String) → String
    any_token [] = ""
    any_token ((name, value) ∷ fields) =
        let rest = any_token fields in if name == "pageToken" then value else rest

fetch_playlist_items-Linked_example :
    fetch_playlist_items two_pages "key" "list" 2 0
    ≡ some (ok (items_of two_pages "key" "list" (page_of "next" "a" ∷ page_of "" "b" ∷ []), pos 2))
unfolding fetch_page
fetch_playlist_items-Linked_example =
    fetch_playlist_items-Linked two_pages "key" "list" 2 0 (page_of "next" "a")
      (page_of "" "b" ∷ []) (omega arith) refl ((refl, refl), refl, ((refl, refl), refl))

-- nothing can be reached, but the service for playlists names one video
abbrev video : YoutubeItem
video = record {
  guid = "yt:video:a";
  title = "a video";
  url = "";
  author = "";
  content = "";
  image_url = "";
  published_at = none;
}

abbrev list_config : YouTubePlaylistConfig
list_config = record { playlist_id = "list"; last_known_count = pos 0 }

abbrev sample_world : World
sample_world = record {
  send = λ url. err "unreachable";
  gunzip = λ body. err "no gzip";
  first_bytes = λ n s. s;
  decimal = λ n. "";
  status_text = λ n. "";
  parse = λ body. err "no feed";
  scraper_runner = none;
  huggingface = λ config. err "no service";
  decode_playlist = λ config. ok (
      if config == "counted" then record list_config { last_known_count = pos 1 } else list_config);
  encode_playlist = λ config. "counted";
  youtube = λ key playlist. ok (video ∷ [], pos 1);
}

abbrev sample_times : FetchTimes
sample_times = record { started = 1000; downloaded = 1010 }

-- the download fails, so the feed is due again an hour after the fetch began
fetch_feed-listed_example :
    is_listed 5000 1
      (fetch_feed sample_world plain_tools no_faults sample_times
        (feed_of 1 1)
        (record { db = sample_db; counts_cache = none })).1.db
    ≡ any (due_after (some "unreachable") 1000 5000 1) sample_db.feeds
unfolding fetch_feed
fetch_feed-listed_example =
    fetch_feed-listed sample_world plain_tools no_faults sample_times 5000 (feed_of 1 1)
      (record { db = sample_db; counts_cache = none }) refl refl

-- an alert that matches the advert and the starred article
abbrev alerted_db : Database
alerted_db = record sample_db {
  news_alerts =
      record {
        id = 4;
        user_id = 1;
        name = "a";
        pattern = "a";
        is_regex = 0;
        match_field = "title";
        created_at = 0;
      }
      ∷ [];
}

abbrev alerted_server : Server
alerted_server = record { db = alerted_db; counts_cache = new_counts_cache 30 }

on_feed_fetched-exact_example :
    (any
        (missed plain_tools no_faults 1
          (on_feed_fetched plain_tools no_faults 10 1 alerted_server).db)
        (on_feed_fetched plain_tools no_faults 10 1 alerted_server).db.articles
      ≡ false)
    × (holds 1 4 (on_feed_fetched plain_tools no_faults 10 1 alerted_server).db ≡ (
        holds 1 4 alerted_db
        || any
            (λ a.
              remains plain_tools no_faults 1 1 alerted_db a
              && any (owned_match plain_tools no_faults 10 1 4 1 a) alerted_db.news_alerts)
            alerted_db.articles))
    × ((on_feed_fetched plain_tools no_faults 10 1 alerted_server).counts_cache
        ≡ invalidate (new_counts_cache 30) 1)
unfolding get_feed_owner
on_feed_fetched-exact_example =
    on_feed_fetched-exact plain_tools no_faults 10 1 1 (λ c. refl) 1 4 alerted_server
      (refl, (refl, (refl, tt))) refl

-- a playlist of one video gets a second one
abbrev list_feed : Feed
list_feed = record (feed_of 1 1) { feed_type = "youtube-playlist"; scraper_config = some "first" }

abbrev list_db : Database
list_db = record sample_db {
  user_settings = record { user_id = 1; key = "youtubeApiKey"; value = "key" } ∷ [];
  feeds = list_feed ∷ [];
}

abbrev two_videos : String → String → Result (List YoutubeItem × ℤ)
two_videos key playlist = ok (video ∷ record video { guid = "yt:video:b" } ∷ [], pos 2)

fetch_youtube_playlist-again_example :
    ((fetch_youtube_playlist sample_world no_faults 10 list_feed list_db).0
      ≡ ok (map of_youtube (new_playlist_items (pos 0) (video ∷ []))))
    × Memᴰ
        (counted_row sample_world 10 list_feed list_config 1)
        (fetch_youtube_playlist sample_world no_faults 10 list_feed list_db).1.feeds
    × ((fetch_youtube_playlist
          (record sample_world { youtube = two_videos })
          no_faults
          10
          (counted_row sample_world 10 list_feed list_config 1)
          list_db).0
        ≡ ok (map of_youtube (record video { guid = "yt:video:b" } ∷ [])))
unfolding get_user_setting
fetch_youtube_playlist-again_example =
    fetch_youtube_playlist-again sample_world 10 list_feed list_config 1 "key" no_faults list_db
      list_db (video ∷ []) (record video { guid = "yt:video:b" } ∷ []) (pos 2) two_videos refl refl
      (record {
        configured = refl;
        decoded = refl;
        named = refl;
        owned = refl;
        answered = refl;
        stored = refl;
        keyed = refl;
      })
      refl (Memᴰ.head refl) refl (omega arith) refl refl refl

-- one loop fetches and one waits when `Stop` comes
stopped_loops_end_example :
    Reach
      (record { running = false; stop_ch = 2; loops = selecting 1 ∷ fetching ∷ [] })
      (record { running = false; stop_ch = 2; loops = [] })
stopped_loops_end_example =
    stopped_loops_end
      (next
        (next (next (next (next here (start_stopped refl)) (enter [] [] refl)) (stop_running refl))
          (start_stopped refl))
        (stop_running refl))
      refl

restarts_add_loops_example :
    Reach new_control (running 2 (selectings 2 2))
    × (is_closed (running 2 (selectings 2 2)) 2 ≡ false)
restarts_add_loops_example = restarts_add_loops 1
