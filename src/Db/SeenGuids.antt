-- ===== src/Db/SeenGuids.antt =====
-- db/dbgen/articles.sql.go and settings.sql.go: the queries behind retention and ingestion.
use feedreader.Prelude.{
  ℕ, String, Bool, false, Option, none, some, List, [], ◌∷◌, ◌++◌, nat_eq, ltb, ◌+◌, ◌*◌, ◌==◌,
  String_eq, ◌&&◌, not, any, keep, length, if◌then◌else◌,
}
use feedreader.Db.Models.{Article, Feed, QueueArticle, SeenGuid, UserSetting, Database}
use feedreader.Db.Calls.{is_zero, sql_eq}

-- a day in seconds
abbrev pub day : ℕ
day = 86400

-- `fetched_at < datetime('now', '-' || days || ' days')`
abbrev pub older_than : ℕ → ℕ → ℕ → Bool
older_than days now stamp = ltb (stamp + day * days) now

abbrev pub queued : List QueueArticle → ℕ → Bool
queued rows id = any (λ q. nat_eq q.article_id id) rows

-- the feed is the user's and takes part in retention
abbrev pub retained_feed : List Feed → ℕ → ℕ → Bool
retained_feed feeds user id =
    any (λ f. nat_eq f.id id && (sql_eq f.user_id (some user) && nat_eq f.skip_retention 0)) feeds

-- the WHERE clause that InsertSeenGuids and DeleteOldUnstarredArticles share
abbrev pub is_expired : Database → ℕ → ℕ → ℕ → Article → Bool
is_expired db user days now a =
    (is_zero a.is_starred && not (queued db.queue_articles a.id))
    && (older_than days now a.fetched_at && retained_feed db.feeds user a.feed_id)

abbrev pub same_guid : ℕ → String → SeenGuid → Bool
same_guid feed guid s = nat_eq s.feed_id feed && s.guid == guid

-- INSERT OR IGNORE at the key `(feed_id, guid)`
unfoldable pub record_guids : ℕ → List Article → List SeenGuid → List SeenGuid
record_guids now [] seen = seen
record_guids now (a ∷ articles) seen = record_guids now articles (
    if any (same_guid a.feed_id a.guid) seen
    then seen
    else seen ++ record { feed_id = a.feed_id; guid = a.guid; seen_at = now } ∷ [])

unfoldable pub insert_seen_guids : ℕ → ℕ → ℕ → Database → Database
unfolding record_guids
insert_seen_guids user days now db = record db {
  seen_guids = record_guids now (keep (is_expired db user days now) db.articles) db.seen_guids;
}

-- DELETE, with the rows that `ON DELETE CASCADE` takes along in `queue_articles` and
-- `article_alerts`
unfoldable pub delete_old_unstarred_articles : ℕ → ℕ → ℕ → Database → Database
delete_old_unstarred_articles user days now db =
    let gone = keep (is_expired db user days now) db.articles in
    record db {
      articles = keep (λ a. not (is_expired db user days now a)) db.articles;
      queue_articles = keep (λ q. not (any (λ a. nat_eq a.id q.article_id) gone)) db.queue_articles;
      article_alerts = keep (λ r. not (any (λ a. nat_eq a.id r.article_id) gone)) db.article_alerts;
    }

-- the number of rows that the DELETE takes
unfoldable pub rows_deleted : ℕ → ℕ → ℕ → Database → ℕ
rows_deleted user days now db = length (keep (is_expired db user days now) db.articles)

-- The number of days is `none` where the text in front of ' days' is negative: the modifier then
-- has two signs, `datetime` gives NULL, and no row is deleted.
abbrev pub is_pruned : Option ℕ → ℕ → SeenGuid → Bool
is_pruned none now s = false
is_pruned (some days) now s = older_than days now s.seen_at

unfoldable pub prune_seen_guids : Option ℕ → ℕ → Database → Database
prune_seen_guids days now db = record db {
  seen_guids = keep (λ s. not (is_pruned days now s)) db.seen_guids;
}

-- SELECT COUNT(*)
unfoldable pub is_guid_seen : Database → ℕ → String → ℕ
is_guid_seen db feed guid = length (keep (same_guid feed guid) db.seen_guids)

abbrev pub find_setting : List UserSetting → ℕ → String → Option String
find_setting [] user key = none
find_setting (s ∷ rest) user key =
    let later = find_setting rest user key in
    if nat_eq s.user_id user && s.key == key then some s.value else later

-- no row is the error sql.ErrNoRows, `none`
unfoldable pub get_user_setting : Database → ℕ → String → Option String
get_user_setting db user key = find_setting db.user_settings user key

abbrev pub put_setting : ℕ → String → String → List UserSetting → List UserSetting
put_setting user key value [] = record { user_id = user; key = key; value = value } ∷ []
put_setting user key value (s ∷ rest) =
    let later = put_setting user key value rest in
    if nat_eq s.user_id user && s.key == key then record s { value = value } ∷ rest else s ∷ later

-- ON CONFLICT(user_id, key) DO UPDATE
unfoldable pub set_user_setting : ℕ → String → String → Database → Database
set_user_setting user key value db = record db {
  user_settings = put_setting user key value db.user_settings;
}

-- the columns that CreateArticle takes
pub record CreateArticleParams : Type 0 where
  pub feed_id : ℕ
  pub guid : String
  pub title : String
  pub url : Option String
  pub author : Option String
  pub content : Option String
  pub summary : Option String
  pub image_url : Option String
  pub published_at : Option ℕ

abbrev pub same_article : CreateArticleParams → Article → Bool
same_article p a = nat_eq a.feed_id p.feed_id && a.guid == p.guid

-- DO UPDATE SET: the key, the time of fetching and the flags stay
abbrev pub update_article : CreateArticleParams → Article → Article
update_article p a = record a {
  title = p.title;
  url = p.url;
  author = p.author;
  content = p.content;
  summary = p.summary;
  image_url = p.image_url;
  published_at = p.published_at;
}

abbrev pub new_article : CreateArticleParams → ℕ → ℕ → Article
new_article p id now = record {
  id = id;
  feed_id = p.feed_id;
  guid = p.guid;
  title = p.title;
  url = p.url;
  author = p.author;
  content = p.content;
  summary = p.summary;
  image_url = p.image_url;
  published_at = p.published_at;
  fetched_at = now;
  is_read = some 0;
  is_starred = some 0;
}

abbrev pub update_rows : CreateArticleParams → List Article → List Article
update_rows p [] = []
update_rows p (a ∷ articles) =
    (if same_article p a then update_article p a else a) ∷ update_rows p articles

-- INSERT … ON CONFLICT(feed_id, guid) DO UPDATE
unfoldable pub create_article : CreateArticleParams → ℕ → Database → Database
create_article p now db =
    if any (same_article p) db.articles
    then record db { articles = update_rows p db.articles }
    else record db {
      articles = db.articles ++ new_article p db.next_article_id now ∷ [];
      next_article_id = db.next_article_id + 1;
    }
