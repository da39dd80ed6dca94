-- ===== src/Youtube/Client.antt =====
-- srv/youtube/youtube.go: the playlist client, page by page. The HTTP client, the decoder of JSON
-- and the formatting of the standard library are parameters.
use Prim.Native.String
use feedreader.Prelude.{
  ℕ, zero, suc, String, Bool, true, false, Option, none, some, List, [], ◌∷◌, ◌++◌, map, ltb,
  nat_eq, not, ◌+◌, ◌^◌, ◌&&◌, ◌||◌, ◌==◌, String_eq, if◌then◌else◌,
}
use feedreader.Prelude.Int.{ℤ, pos}
use feedreader.Prelude.Results.{Result, ok, err, wrap}

pub record YoutubeItem : Type 0 where
  pub guid : String
  pub title : String
  pub url : String
  pub author : String
  pub content : String
  pub image_url : String
  pub published_at : Option ℕ

-- a thumbnail is its URL
pub record ThumbnailMap : Type 0 where
  pub high : Option String
  pub medium : Option String
  pub default : Option String

pub record PlaylistSnippet : Type 0 where
  pub published_at : String
  pub title : String
  pub description : String
  pub thumbnails : ThumbnailMap
  pub video_owner_channel_title : String
  pub position : ℤ
  pub video_id : String

-- an error of the API, with the reasons of its details
pub record ApiError : Type 0 where
  pub code : ℤ
  pub message : String
  pub reasons : List String

pub record PlaylistItemsResponse : Type 0 where
  pub next_page_token : String
  pub total_results : ℤ
  pub items : List PlaylistSnippet
  pub error : Option ApiError

-- what an HTTP exchange gives; reading the body may fail
pub record Answer : Type 0 where
  pub status : ℕ
  pub content_encoding : String
  pub body : Result String

-- What is called of the standard library and of the network.
pub record Net : Type 0 where
  -- a GET request for a URL, by the client of the caller
  pub send : String → Result Answer
  -- the first bytes of a text, as `io.LimitReader` lets them through
  pub first_bytes : ℕ → String → String
  pub encode_query : List (String × String) → String
  pub decode_page : String → Result PlaylistItemsResponse
  pub escape_string : String → String
  pub parse_rfc3339 : String → Option ℕ
  pub decimal : ℤ → String

abbrev glue : List String → String
glue [] = ""
glue (s ∷ rest) = String.◌++◌ s (glue rest)

abbrev has_url : Option String → Bool
has_url none = false
has_url (some url) = not (url == "")

abbrev url_of : Option String → String
url_of none = ""
url_of (some url) = url

unfoldable pub best_thumbnail : ThumbnailMap → String
best_thumbnail t =
    if has_url t.high
    then url_of t.high
    else if has_url t.medium
    then url_of t.medium
    else if has_url t.default
    then url_of t.default
    else ""

-- the first detail with a reason that the code knows decides
unfoldable pub classify_error : (ℤ → String) → ApiError → List String → String
classify_error decimal e [] = glue ("youtube API error " ∷ decimal e.code ∷ ": " ∷ e.message ∷ [])
classify_error decimal e (reason ∷ reasons) =
    let rest = classify_error decimal e reasons in
    if reason == "quotaExceeded" || reason == "dailyLimitExceeded"
    then String.◌++◌ "youtube API quota exceeded: " e.message
    else if reason == "keyInvalid"
    then String.◌++◌ "youtube API key invalid: " e.message
    else if reason == "playlistNotFound"
    then String.◌++◌ "youtube playlist not found: " e.message
    else if reason == "forbidden"
    then String.◌++◌ "youtube API access forbidden: " e.message
    else rest

module _ (net : Net) where
  unfoldable pub convert_item : PlaylistSnippet → YoutubeItem
  unfolding best_thumbnail
  convert_item s =
      let embed_url = String.◌++◌ "https://www.youtube.com/embed/" s.video_id in
      let frame =
        glue
          ("<iframe src=\"" ∷ net.escape_string embed_url ∷ "\" allowfullscreen></iframe>" ∷ []) in
      record {
        guid = String.◌++◌ "yt:video:" s.video_id;
        title = s.title;
        url = String.◌++◌ "https://www.youtube.com/watch?v=" s.video_id;
        author = s.video_owner_channel_title;
        content =
            if s.description == ""
            then frame
            else glue (frame ∷ "\n<p>" ∷ net.escape_string s.description ∷ "</p>" ∷ []);
        image_url = best_thumbnail s.thumbnails;
        published_at = net.parse_rfc3339 s.published_at;
      }

  module _ (api_key playlist : String) where
    abbrev page_url : String → String
    page_url token = glue (
        "https://www.googleapis.com/youtube/v3/playlistItems?"
        ∷ net.encode_query (
            ("part", "snippet")
            ∷ ("playlistId", playlist)
            ∷ ("maxResults", "50")
            ∷ ("key", api_key)
            ∷ (if token == "" then [] else ("pageToken", token) ∷ []))
        ∷ [])

    -- an answer other than 200: the API's own error, if the body holds one
    abbrev failed_page :
        Answer → String → Result PlaylistItemsResponse → Result PlaylistItemsResponse
    failed_page answer body (ok page) = elim page.error [
      | some e ↦ err (classify_error net.decimal e e.reasons)
      | none ↦ err (glue ("youtube API HTTP " ∷ net.decimal (pos answer.status) ∷ ": " ∷ body ∷ []))
    ]
    failed_page answer body (err e) =
        err (glue ("youtube API HTTP " ∷ net.decimal (pos answer.status) ∷ ": " ∷ body ∷ []))

    unfoldable pub fetch_page : String → Result PlaylistItemsResponse
    unfolding classify_error
    fetch_page token =
        wrap (String.◌++◌ "youtube API request: ") (net.send (page_url token)) (λ answer.
          wrap (String.◌++◌ "read response: ") answer.body (λ text.
            let body = net.first_bytes (2 ^ 20) text in
            if nat_eq answer.status 200
            then wrap (String.◌++◌ "decode response: ") (net.decode_page body) ok
            else failed_page answer body (net.decode_page body)))

    -- The loop, with the number of pages asked for so far; `none` is fuel that did not suffice. A
    -- `max_pages` of 0 is no limit.
    unfoldable pub fetch_pages :
        ℕ → ℕ → ℕ → String → List YoutubeItem → ℤ → Option (Result (List YoutubeItem × ℤ))
    unfolding fetch_page convert_item classify_error
    fetch_pages zero max_pages page token all_items total = none
    fetch_pages (suc fuel) max_pages page token all_items total =
        elim (ltb 0 max_pages && ltb max_pages (page + 1)) [
          | true ↦ some (ok (all_items, total))
          | false ↦ elim (fetch_page token) [
            | err e ↦ some (err e)
            | ok resp ↦ elim resp.error [
              | some e ↦ some (err (classify_error net.decimal e e.reasons))
              | none ↦
                  let items = all_items ++ map convert_item resp.items in
                  elim (resp.next_page_token == "") [
                    | true ↦ some (ok (items, resp.total_results))
                    | false ↦
                        fetch_pages fuel max_pages (page + 1) resp.next_page_token items
                          resp.total_results
                  ]
            ]
          ]
        ]

    unfoldable pub fetch_playlist_items : ℕ → ℕ → Option (Result (List YoutubeItem × ℤ))
    unfolding fetch_pages
    fetch_playlist_items fuel max_pages = fetch_pages fuel max_pages 0 "" [] (pos 0)
