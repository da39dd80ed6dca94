-- ===== src/Handlers/Articles.antt =====
-- srv/server.go: the handlers that mark, star and queue articles.
use feedreader.Prelude.{
  ℕ, String, Option, none, some, List, [], ◌∷◌, ltb, ◌==◌, String_eq, length, if◌then◌else◌,
}
use feedreader.Prelude.Int.{ℤ}
use feedreader.Strings.Numbers.{atoi}
use feedreader.Http.{Response}
use feedreader.Server.{Server}
use feedreader.Db.Models.{Database}
use feedreader.Db.Calls.{
  Faults, ask, set_article_call, set_articles_call, is_article_queued_call, add_to_queue_call,
  remove_from_queue_call,
}
use feedreader.Db.Reading.{
  mark_article_read, mark_article_unread, toggle_article_star, mark_all_articles_read,
  mark_all_articles_read_older_than, mark_feed_read, mark_feed_articles_read_older_than,
  mark_category_read, mark_category_articles_read_older_than,
}
use feedreader.Db.Queue.{is_article_queued, add_to_queue, remove_from_queue}
use feedreader.CountsCache.{invalidate}

-- The requests of these handlers: the `{id}` of the path and the `age` parameter as texts, and the
-- identifiers of a decoded body, `none` where decoding fails.
pub data Route : Type 0 where
  mark_read : String → Route
  batch_mark_read : Option (List ℤ) → Route
  mark_unread : String → Route
  toggle_star : String → Route
  toggle_queue : String → Route
  remove_queued : String → Route
  mark_all_read : String → Route
  mark_feed : String → String → Route
  mark_category : String → String → Route

-- `strconv.ParseInt(s, 10, 64)`, with the answer 400 to a text that is no number
abbrev pub parsed : Option ℤ → Server → (ℤ → Response × Server) → Response × Server
parsed none s next = (record { status = 400 }, s)
parsed (some id) s next = next id

-- an error of the statement is answered with 500; otherwise the counts of the user are dropped
abbrev pub written : ℕ → Option Database → Server → Response × Server
written user none s = (record { status = 500 }, s)
written user (some db) s =
    (record { status = 200 }, record { db = db; counts_cache = invalidate s.counts_cache user })

abbrev pub max_batch : ℕ
max_batch = 200

-- `markReadAgeDay` and `markReadAgeWeek`
abbrev pub mark_read_age_day : ℕ
mark_read_age_day = 1

abbrev pub mark_read_age_week : ℕ
mark_read_age_week = 7

-- `switch age`
abbrev pub by_age {ℓ} : {A : Type ℓ} → String → (ℕ → A) → A → A
by_age age older all =
    if age == "day"
    then older mark_read_age_day
    else if age == "week"
    then older mark_read_age_week
    else all

abbrev pub or_zero : Option ℕ → ℕ
or_zero none = 0
or_zero (some n) = n

module _ (faults : Faults) (now user : ℕ) where
  unfoldable pub api_mark_read : String → Server → Response × Server
  unfolding atoi mark_article_read
  api_mark_read id s =
      parsed (atoi id) s
        (λ n. written user (ask faults (set_article_call n) (mark_article_read n user s.db)) s)

  -- the loop over the identifiers: a failed statement is logged and skipped
  unfoldable pub mark_batch : List ℤ → Database → Database
  unfolding mark_article_read
  mark_batch [] db = db
  mark_batch (id ∷ ids) db =
      mark_batch ids (if faults (set_article_call id) then db else mark_article_read id user db)

  unfoldable pub api_batch_mark_read : Option (List ℤ) → Server → Response × Server
  unfolding mark_batch
  api_batch_mark_read none s = (record { status = 400 }, s)
  api_batch_mark_read (some []) s = (record { status = 200 }, s)
  api_batch_mark_read (some (id ∷ ids)) s =
      if ltb max_batch (length (id ∷ ids))
      then (record { status = 400 }, s)
      else written user (some (mark_batch (id ∷ ids) s.db)) s

  unfoldable pub api_mark_unread : String → Server → Response × Server
  unfolding atoi mark_article_unread
  api_mark_unread id s =
      parsed (atoi id) s
        (λ n. written user (ask faults (set_article_call n) (mark_article_unread n user s.db)) s)

  unfoldable pub api_toggle_star : String → Server → Response × Server
  unfolding atoi toggle_article_star
  api_toggle_star id s =
      parsed (atoi id) s
        (λ n. written user (ask faults (set_article_call n) (toggle_article_star n user s.db)) s)

  abbrev pub removed : ℤ → Database → Option Database
  removed article db = ask faults remove_from_queue_call (remove_from_queue user article db)

  abbrev pub added : ℤ → Database → Option Database
  added article db = if faults add_to_queue_call then none else add_to_queue now user article db

  -- a failed look-up counts as an article that is not queued
  unfoldable pub api_toggle_queue : String → Server → Response × Server
  unfolding atoi is_article_queued add_to_queue remove_from_queue
  api_toggle_queue id s = parsed (atoi id) s (λ n.
      written user
        (if ltb 0 (or_zero (ask faults is_article_queued_call (is_article_queued s.db user n)))
          then removed n s.db
          else added n s.db)
        s)

  unfoldable pub api_remove_from_queue : String → Server → Response × Server
  unfolding atoi remove_from_queue
  api_remove_from_queue id s = parsed (atoi id) s (λ n. written user (removed n s.db) s)

  unfoldable pub api_mark_all_read : String → Server → Response × Server
  unfolding mark_all_articles_read mark_all_articles_read_older_than
  api_mark_all_read age s =
      written user
        (ask faults set_articles_call (
          by_age age (λ days. mark_all_articles_read_older_than days user now s.db)
            (mark_all_articles_read user s.db)))
        s

  unfoldable pub api_mark_feed_read : String → String → Server → Response × Server
  unfolding atoi mark_feed_read mark_feed_articles_read_older_than
  api_mark_feed_read id age s = parsed (atoi id) s (λ n.
      written user
        (ask faults set_articles_call (
          by_age age (λ days. mark_feed_articles_read_older_than n days user now s.db)
            (mark_feed_read n user s.db)))
        s)

  unfoldable pub api_mark_category_read : String → String → Server → Response × Server
  unfolding atoi mark_category_read mark_category_articles_read_older_than
  api_mark_category_read id age s = parsed (atoi id) s (λ n.
      written user
        (ask faults set_articles_call (
          by_age age (λ days. mark_category_articles_read_older_than n days user now s.db)
            (mark_category_read n user s.db)))
        s)

  -- the routes of `Handler`
  unfoldable pub dispatch : Route → Server → Response × Server
  unfolding api_mark_read api_batch_mark_read api_mark_unread api_toggle_star api_toggle_queue
      api_remove_from_queue api_mark_all_read api_mark_feed_read api_mark_category_read
  dispatch (mark_read id) s = api_mark_read id s
  dispatch (batch_mark_read ids) s = api_batch_mark_read ids s
  dispatch (mark_unread id) s = api_mark_unread id s
  dispatch (toggle_star id) s = api_toggle_star id s
  dispatch (toggle_queue id) s = api_toggle_queue id s
  dispatch (remove_queued id) s = api_remove_from_queue id s
  dispatch (mark_all_read age) s = api_mark_all_read age s
  dispatch (mark_feed id age) s = api_mark_feed_read id age s
  dispatch (mark_category id age) s = api_mark_category_read id age s
