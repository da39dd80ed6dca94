-- ===== src/Fetcher/World.antt =====
-- srv/feeds/fetcher.go: what the fetcher calls and the kinds of items that it gets. Requests, decompression and JSON are
-- parameters, and so are the parser of XML feeds (srv/feeds/parser.go), the scraper scripts
-- (srv/scrapers) and the client of srv/huggingface, which no module describes; the client of
-- srv/youtube is `fetch_playlist_items` of Youtube/Client.antt.
use Prim.Native.String
use feedreader.Prelude.{
  ℕ, zero, suc, String, Bool, false, not, Option, none, some, List, [], ◌∷◌, nat_eq, ltb, leb, ◌*◌,
  ◌^◌, ◌&&◌, ◌==◌, String_eq, length, if◌then◌else◌,
}
use feedreader.Prelude.Int.{ℤ, pos, negsuc}
use feedreader.Prelude.Results.{Result}
use feedreader.Youtube.Client.{YoutubeItem, Answer}
use feedreader.Fetcher.Store.{FeedItem}

-- the configuration of a playlist feed, stored as JSON in `scraper_config`
pub record YouTubePlaylistConfig : Type 0 where
  pub playlist_id : String
  pub last_known_count : ℤ

-- srv/scrapers/runner.go: `FeedItem`
pub record ScrapedItem : Type 0 where
  pub guid : String
  pub title : String
  pub url : String
  pub author : String
  pub content : String
  pub summary : String
  pub image_url : String
  pub published_at : Option ℕ

-- srv/huggingface/huggingface.go: `FeedItem`, without its tags, which the fetcher does not read
pub record HuggingFaceItem : Type 0 where
  pub guid : String
  pub title : String
  pub url : String
  pub author : String
  pub summary : String
  pub image_url : String
  pub published_at : Option ℕ

-- what the fetcher calls
pub record World : Type 0 where
  pub send : String → Result Answer
  -- decompression; a stream that breaks off counts as one that has no valid header
  pub gunzip : String → Result String
  pub first_bytes : ℕ → String → String
  pub decimal : ℕ → String
  pub status_text : ℕ → String
  pub parse : String → Result (List FeedItem × String)
  -- `ScraperRunner.Run` on a script, a page, its URL and a configuration; `none` is a nil runner
  pub scraper_runner : Option (String → String → String → String → Result (List ScrapedItem))
  -- `json.Unmarshal` into a configuration, and `client.Fetch` with it
  pub huggingface : String → Result (Result (List HuggingFaceItem))
  pub decode_playlist : String → Result YouTubePlaylistConfig
  pub encode_playlist : YouTubePlaylistConfig → String
  -- `FetchPlaylistItems` of a client with a key: the items of a playlist and their total
  pub youtube : String → String → Result (List YoutubeItem × ℤ)

abbrev pub max_feed_body_bytes : ℕ
max_feed_body_bytes = 32 * 2 ^ 20

unfoldable pub http_error_description : ℕ → String
http_error_description code =
    if nat_eq code 400
    then "The request was malformed or invalid"
    else if nat_eq code 401
    then "Authentication is required to access this feed"
    else if nat_eq code 403
    then "The server refused to provide this feed"
    else if nat_eq code 404
    then "The feed URL was not found on the server"
    else if nat_eq code 405
    then "The request method is not allowed for this feed"
    else if nat_eq code 408
    then "The server timed out waiting for the request"
    else if nat_eq code 410
    then "The feed has been permanently removed"
    else if nat_eq code 429
    then "Too many requests; the server is rate limiting"
    else if nat_eq code 500
    then "The server encountered an internal error"
    else if nat_eq code 502
    then "The server received an invalid response from upstream"
    else if nat_eq code 503
    then "The server is temporarily unavailable"
    else if nat_eq code 504
    then "The server timed out waiting for an upstream response"
    else if leb 400 code && ltb code 500
    then "The request could not be completed"
    else if leb 500 code
    then "The server encountered an error"
    else "An unexpected error occurred"

abbrev pub glue : List String → String
glue [] = ""
glue (s ∷ rest) = String.◌++◌ s (glue rest)

abbrev pub same : String → String
same message = message

abbrev pub is_set : Option String → Bool
is_set none = false
is_set (some s) = not (s == "")

abbrev pub text : Option String → String
text none = ""
text (some s) = s

-- `newItems[n:]`
abbrev pub drop {ℓ} : {A : Type ℓ} → ℕ → List A → List A
drop zero xs = xs
drop (suc n) [] = []
drop (suc n) (x ∷ xs) = drop n xs

-- the items past the count that is known; a count of 0 takes them all
unfoldable pub new_playlist_items : ℤ → List YoutubeItem → List YoutubeItem
new_playlist_items (negsuc n) items = []
new_playlist_items (pos n) items =
    if ltb 0 n && ltb n (length items) then drop n items else if nat_eq n 0 then items else []

abbrev pub of_youtube : YoutubeItem → FeedItem
of_youtube yt = record {
  guid = yt.guid;
  title = yt.title;
  url = yt.url;
  author = yt.author;
  content = yt.content;
  summary = "";
  image_url = yt.image_url;
  published_at = yt.published_at;
}

abbrev pub of_scraped : ScrapedItem → FeedItem
of_scraped si = record {
  guid = si.guid;
  title = si.title;
  url = si.url;
  author = si.author;
  content = si.content;
  summary = si.summary;
  image_url = si.image_url;
  published_at = si.published_at;
}

abbrev pub of_huggingface : HuggingFaceItem → FeedItem
of_huggingface item = record {
  guid = item.guid;
  title = item.title;
  url = item.url;
  author = item.author;
  content = "";
  summary = item.summary;
  image_url = item.image_url;
  published_at = item.published_at;
}

abbrev pub same_int : ℤ → ℤ → Bool
same_int (pos a) (pos b) = nat_eq a b
same_int (negsuc a) (negsuc b) = nat_eq a b
same_int a b = false
