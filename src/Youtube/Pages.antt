-- ===== src/Youtube/Pages.antt =====
-- srv/youtube/youtube.go: `FetchPlaylistItems` reads a whole playlist and stops.
use feedreader.Prelude.{
  ℕ, zero, suc, String, ◌≡◌, refl, ap, ◌∙◌, true, false, none, some, List, [], ◌∷◌, ◌++◌, map, ltb,
  ◌+◌, ◌≤◌, ◌<◌, ◌&&◌, ◌==◌, String_eq, length, arith,
}
use mathlib.Core.List.{append_assoc, append-nil}
use feedreader.Prelude.Int.{ℤ, pos}
use feedreader.Prelude.Results.{ok}
use feedreader.Youtube.Client.{
  Net, YoutubeItem, PlaylistItemsResponse, convert_item, fetch_page, fetch_pages,
  fetch_playlist_items,
}

module _ (net : Net) (api_key playlist : String) where
  -- The service answers a token with the page, which holds no error.
  abbrev pub Answers : String → PlaylistItemsResponse → Type 0
  Answers token page = (fetch_page net api_key playlist token ≡ ok page) × (page.error ≡ none)

  -- The pages behind a token: each names the token of the next one, and the last names none.
  abbrev pub Linked : String → PlaylistItemsResponse → List PlaylistItemsResponse → Type 0
  Linked token page [] = Answers token page × ((page.next_page_token == "") ≡ true)
  Linked token page (next ∷ pages) =
      Answers token page
      × ((page.next_page_token == "") ≡ false)
      × Linked page.next_page_token next pages

  abbrev pub items_of : List PlaylistItemsResponse → List YoutubeItem
  items_of [] = []
  items_of (page ∷ pages) = map (convert_item net) page.items ++ items_of pages

  -- the total that the last page gives
  abbrev pub last_total : PlaylistItemsResponse → List PlaylistItemsResponse → ℤ
  last_total page [] = page.total_results
  last_total page (next ∷ pages) = last_total next pages

  fetch_pages-Linked :
      (fuel max asked : ℕ) (token : String) (before : List YoutubeItem) (total : ℤ)
      (page : PlaylistItemsResponse) (pages : List PlaylistItemsResponse)
      → length pages < fuel
      → (ltb 0 max && ltb max (asked + length (page ∷ pages))) ≡ false
      → Linked token page pages
      → fetch_pages net api_key playlist fuel max asked token before total
        ≡ some (ok (before ++ items_of (page ∷ pages), last_total page pages))
  unfolding fetch_pages
  fetch_pages-Linked zero max asked token before total page pages h k l = absurd (omega arith)
  fetch_pages-Linked (suc fuel) max asked token before total page [] h k ((answer, fine), last) =
      let within : (ltb 0 max && ltb max (asked + 1)) ≡ false = ground arith in
      rw (fetch_pages, within, answer, fine, last, append-nil) refl
  fetch_pages-Linked (suc fuel) max asked token before total page (next ∷ pages) h k
        ((answer, fine), more, rest) =
      let within : (ltb 0 max && ltb max (asked + 1)) ≡ false = ground arith in
      rw (fetch_pages, within, answer, fine, more)
        (fetch_pages-Linked fuel max (asked + 1) page.next_page_token
            (before ++ map (convert_item net) page.items) page.total_results next pages
            (omega arith) (ground arith) rest
          ∙ ap (λ items. some (ok (items, last_total next pages)))
              (append_assoc before (map (convert_item net) page.items) (items_of (next ∷ pages))))

  -- For a playlist whose pages are linked by their tokens up to a last one, the loop ends: fuel for
  -- one round a page is enough, and gives the items of all pages in order and the total that the
  -- last page names. The limit on the number of pages is 0, which is none, or not below their
  -- number.
  pub fetch_playlist_items-Linked :
      (fuel max : ℕ) (page : PlaylistItemsResponse) (pages : List PlaylistItemsResponse)
      → length (page ∷ pages) ≤ fuel
      → (ltb 0 max && ltb max (length (page ∷ pages))) ≡ false
      → Linked "" page pages
      → fetch_playlist_items net api_key playlist fuel max
        ≡ some (ok (items_of (page ∷ pages), last_total page pages))
  unfolding fetch_playlist_items
  fetch_playlist_items-Linked fuel max page pages h k l =
      fetch_pages-Linked fuel max 0 "" [] (pos 0) page pages (omega arith) (ground arith) l
