-- ===== src/Fetcher/Playlist.antt =====
-- srv/feeds/fetcher.go: successive fetches of a playlist feed.
use mathlib.Core.Path.{subst}
use mathlib.Core.List.{Memᴰ}
use feedreader.Prelude.{
  ℕ, String, ◌≡◌, refl, sym, ap, ◌∙◌, true, false, not, some, List, [], ◌∷◌, ◌++◌, map, nat_eq,
  nat_eq_iff, ltb, ◌<◌, ◌==◌, String_eq, length, length-append, arith, if◌then◌else◌,
}
use feedreader.Prelude.Int.{ℤ, pos}
use feedreader.Prelude.Results.{Result, ok}
use feedreader.Youtube.Client.{YoutubeItem}
use feedreader.Db.Models.{Feed, Database}
use feedreader.Db.Calls.{Faults, get_user_setting_call, update_feed_scraper_config_call}
use feedreader.Db.SeenGuids.{get_user_setting}
use feedreader.Db.Fetching.{update_feed_scraper_config}
use feedreader.Fetcher.Store.{FeedItem}
use feedreader.Fetcher.World.{
  World, YouTubePlaylistConfig, drop, new_playlist_items, of_youtube, is_set, text, same_int,
}
use feedreader.Fetcher.Download.{
  youtube_api_key, playlist_by_key, playlist_of_user, playlist_answer, remember_count,
  fetch_youtube_playlist,
}

drop-append {ℓ} : {A : Type ℓ} (xs ys : List A) → drop (length xs) (xs ++ ys) ≡ ys
drop-append [] ys = refl
drop-append (x ∷ xs) ys = drop-append xs ys

-- items behind the ones that are counted are the new ones
new_items_behind :
    (xs ys : List YoutubeItem)
    → 0 < length xs
    → new_playlist_items (pos (length xs)) (xs ++ ys) ≡ ys
unfolding new_playlist_items
new_items_behind xs [] h =
    let none_left : ltb (length xs) (length (xs ++ [])) ≡ false =
      ground (arith, length-append xs []) in
    let some_known : nat_eq (length xs) 0 ≡ false = ground arith in
    rw (none_left, some_known) (ground arith)
new_items_behind xs (y ∷ ys) h =
    let more : ltb (length xs) (length (xs ++ y ∷ ys)) ≡ true =
      ground (arith, length-append xs (y ∷ ys)) in
    let known : ltb 0 (length xs) ≡ true = ground arith in
    rw (more, known) (drop-append xs (y ∷ ys))

-- The feed is set up for the API: a configuration, an owner and the owner's key.
pub record IsPlaylist (world : World) (faults : Faults) (feed : Feed)
    (config : YouTubePlaylistConfig) (user : ℕ) (key : String) (db : Database) : Type 0 where
  pub configured : is_set feed.scraper_config ≡ true
  pub decoded : world.decode_playlist (text feed.scraper_config) ≡ ok config
  pub named : (config.playlist_id == "") ≡ false
  pub owned : feed.user_id ≡ some user
  pub answered : faults (get_user_setting_call user) ≡ false
  pub stored : get_user_setting db user "youtubeApiKey" ≡ some key
  pub keyed : (key == "") ≡ false

module _ (world : World) (faults : Faults) (now : ℕ) where
  key-IsPlaylist :
      (feed : Feed) (config : YouTubePlaylistConfig) (user : ℕ) (key : String) (db : Database)
      → IsPlaylist world faults feed config user key db
      → youtube_api_key world faults now user db ≡ key
  key-IsPlaylist feed config user key db p = rw (p.answered, p.stored) refl

  user-IsPlaylist :
      (feed : Feed) (config : YouTubePlaylistConfig) (user : ℕ) (key : String) (db : Database)
      (answer : Result (List YoutubeItem × ℤ))
      → IsPlaylist world faults feed config user key db
      → world.youtube key config.playlist_id ≡ answer
      → playlist_of_user world faults now feed config (some user) db
        ≡ playlist_answer world faults now feed config answer db
  user-IsPlaylist feed config user key db answer p given =
      ap (λ k. playlist_by_key world faults now feed config k db)
        (key-IsPlaylist feed config user key db p)
      ∙ rw p.keyed (ap (λ r. playlist_answer world faults now feed config r db) given)

  fetch-IsPlaylist :
      (feed : Feed) (config : YouTubePlaylistConfig) (user : ℕ) (key : String) (db : Database)
      (answer : Result (List YoutubeItem × ℤ))
      → IsPlaylist world faults feed config user key db
      → world.youtube key config.playlist_id ≡ answer
      → fetch_youtube_playlist world faults now feed db
        ≡ playlist_answer world faults now feed config answer db
  unfolding fetch_youtube_playlist
  fetch-IsPlaylist feed config user key db answer p given =
      rw (p.configured, p.decoded, p.named)
        (ap (λ u. playlist_of_user world faults now feed config u db) p.owned
          ∙ user-IsPlaylist feed config user key db answer p given)

-- the configuration with a new count, and the row of the feed once it is stored
abbrev pub counted : YouTubePlaylistConfig → ℕ → YouTubePlaylistConfig
counted config count = record config { last_known_count = pos count }

abbrev pub counted_row : World → ℕ → Feed → YouTubePlaylistConfig → ℕ → Feed
counted_row world now feed config count = record feed {
  scraper_config = some (world.encode_playlist (counted config count));
  updated_at = now;
}

module _ (world : World) (now : ℕ) (feed : Feed) (config : YouTubePlaylistConfig) (user : ℕ)
    (key : String) where
  stored_count :
      (faults : Faults) (db : Database) (count : ℕ)
      → same_int (pos count) config.last_known_count ≡ false
      → faults (update_feed_scraper_config_call feed.id) ≡ false
      → Memᴰ feed db.feeds
      → Memᴰ
          (counted_row world now feed config count)
          (remember_count world faults now feed config (pos count) db).feeds
  unfolding update_feed_scraper_config
  stored_count faults db count other fine m = rw (other, fine) (updated m)
    where
      change : Feed → Feed
      change f = record f {
        scraper_config = some (world.encode_playlist (counted config count));
        updated_at = now;
      }

      updated :
          {fs : List Feed}
          → Memᴰ feed fs
          → Memᴰ
              (counted_row world now feed config count)
              (map (λ f. if nat_eq f.id feed.id then change f else f) fs)
      updated (Memᴰ.head {x} e) =
          Memᴰ.head
            (rw ((nat_eq_iff x.id feed.id).1 (ap (λ (f : Feed). f.id) (sym e))) (ap change e))
      updated (Memᴰ.tail n) = Memᴰ.tail (updated n)

  -- A playlist feed that is set up for the API, whose service names `xs` and their number, which is
  -- not 0 and not the known count: the fetch gives the items past the known count and stores the
  -- number in the row of the feed. A later fetch of that row, at any database that still holds the
  -- key and with an answer that has `ys` behind `xs`, gives exactly `ys`, whether or not the items
  -- of the first fetch were stored. The encoded configuration is not the empty text and is decoded
  -- to what it was.
  pub fetch_youtube_playlist-again :
      (faults : Faults) (db db' : Database) (xs ys : List YoutubeItem) (total : ℤ)
      (later : String → String → Result (List YoutubeItem × ℤ))
      → world.decode_playlist (world.encode_playlist (counted config (length xs)))
        ≡ ok (counted config (length xs))
      → (world.encode_playlist (counted config (length xs)) == "") ≡ false
      → IsPlaylist world faults feed config user key db
      → get_user_setting db' user "youtubeApiKey" ≡ some key
      → Memᴰ feed db.feeds
      → faults (update_feed_scraper_config_call feed.id) ≡ false
      → 0 < length xs
      → same_int (pos (length xs)) config.last_known_count ≡ false
      → world.youtube key config.playlist_id ≡ ok (xs, pos (length xs))
      → later key config.playlist_id ≡ ok (xs ++ ys, total)
      → (let first = fetch_youtube_playlist world faults now feed db in
          let row = counted_row world now feed config (length xs) in
          let then_world = record world { youtube = later } in
          (first.0 ≡ ok (map of_youtube (new_playlist_items config.last_known_count xs)))
          × Memᴰ row first.1.feeds
          × ((fetch_youtube_playlist then_world faults now row db').0 ≡ ok (map of_youtube ys)))
  fetch_youtube_playlist-again faults db db' xs ys total later back set p kept m fine some_known
        other answer next =
      let first =
        fetch-IsPlaylist world faults now feed config user key db (ok (xs, pos (length xs))) p
          answer in
      let again : IsPlaylist (record world { youtube = later }) faults
          (counted_row world now feed config (length xs)) (counted config (length xs)) user key
          db' =
        record {
          configured = ap not set;
          decoded = back;
          named = p.named;
          owned = p.owned;
          answered = p.answered;
          stored = kept;
          keyed = p.keyed;
        } in
      (
        ap (λ r. r.0) first,
        subst
            (λ (r : Result (List FeedItem) × Database).
              Memᴰ (counted_row world now feed config (length xs)) r.1.feeds)
            (sym first) (stored_count faults db (length xs) other fine m),
        ap (λ r. r.0)
              (fetch-IsPlaylist (record world { youtube = later }) faults now
                (counted_row world now feed config (length xs)) (counted config (length xs)) user
                key db' (ok (xs ++ ys, total)) again next)
            ∙ ap (λ items. ok (map of_youtube items)) (new_items_behind xs ys some_known),
      )
