-- ===== src/Fetcher/Store.antt =====
-- srv/feeds/fetcher.go: `storeItems` and `strPtr`.
use feedreader.Prelude.{
  ℕ, String, Bool, false, Option, none, some, List, [], ◌∷◌, ◌+◌, ltb, ◌==◌, String_eq,
  if◌then◌else◌,
}
use feedreader.Strings.Numbers.{is_blank}
use feedreader.Db.Models.{Database}
use feedreader.Db.Calls.{
  Faults, ask, begin_tx_call, commit_call, is_guid_seen_call, create_article_call,
}
use feedreader.Db.SeenGuids.{CreateArticleParams, create_article, is_guid_seen}

-- srv/feeds/parser.go; `published_at` is an instant, so `UTC()` does not change it
pub record FeedItem : Type 0 where
  pub guid : String
  pub title : String
  pub url : String
  pub author : String
  pub content : String
  pub summary : String
  pub image_url : String
  pub published_at : Option ℕ

unfoldable pub str_ptr : String → Option String
unfolding is_blank
str_ptr s = if is_blank s then none else some s

abbrev pub article_params : ℕ → FeedItem → CreateArticleParams
article_params feed item = record {
  feed_id = feed;
  guid = item.guid;
  title = item.title;
  url = str_ptr item.url;
  author = str_ptr item.author;
  content = str_ptr item.content;
  summary = str_ptr item.summary;
  image_url = str_ptr item.image_url;
  published_at = item.published_at;
}

module _ (faults : Faults) (feed now : ℕ) where
  -- `err == nil && seen > 0`: a failed check lets the item through
  abbrev pub skipped : Option ℕ → Bool
  skipped none = false
  skipped (some seen) = ltb 0 seen

  -- one round of the loop, on the transaction's database and the count of inserted articles
  unfoldable pub store_item : FeedItem → Database × ℕ → Database × ℕ
  unfolding str_ptr create_article is_guid_seen
  store_item item (db, inserted) =
      if item.guid == ""
      then (db, inserted)
      else if skipped (ask faults (is_guid_seen_call item.guid) (is_guid_seen db feed item.guid))
      then (db, inserted)
      else if faults (create_article_call item.guid)
      then (db, inserted)
      else (create_article (article_params feed item) now db, inserted + 1)

  unfoldable pub store_loop : List FeedItem → Database × ℕ → Database × ℕ
  unfolding store_item
  store_loop [] s = s
  store_loop (item ∷ items) s = store_loop items (store_item item s)

  -- a transaction that cannot begin or commit leaves the database as it was
  unfoldable pub store_items : List FeedItem → Database → Database × ℕ
  unfolding store_loop
  store_items items db =
      if faults begin_tx_call
      then (db, 0)
      else if faults commit_call
      then (db, 0)
      else store_loop items (db, 0)
