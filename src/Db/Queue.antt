-- ===== src/Db/Queue.antt =====
-- db/dbgen/queue.sql.go: the reading queue. Foreign keys are enforced (db/db.go).
use feedreader.Prelude.{
  ℕ, Bool, not, Option, none, some, [], ◌∷◌, ◌++◌, ◌+◌, nat_eq, ◌&&◌, any, keep, length,
  if◌then◌else◌,
}
use feedreader.Prelude.Int.{ℤ, pos, negsuc}
use feedreader.Db.Models.{QueueArticle, Database}
use feedreader.Db.Calls.{is_id}

abbrev pub queued_by : ℕ → ℤ → QueueArticle → Bool
queued_by user article r = nat_eq r.user_id user && is_id article r.article_id

unfoldable pub is_article_queued : Database → ℕ → ℤ → ℕ
is_article_queued db user article = length (keep (queued_by user article) db.queue_articles)

abbrev pub new_row : ℕ → ℕ → ℕ → Database → Database
new_row now user article db = record db {
  queue_articles =
      db.queue_articles
      ++ record {
        id = db.next_queue_article_id;
        user_id = user;
        article_id = article;
        added_at = now;
      }
        ∷ [];
  next_queue_article_id = db.next_queue_article_id + 1;
}

-- INSERT OR IGNORE at the key `(user_id, article_id)`. `none` is the error of a foreign key that
-- names no row, which OR IGNORE does not cover.
unfoldable pub add_to_queue : ℕ → ℕ → ℤ → Database → Option Database
add_to_queue now user (negsuc n) db = none
add_to_queue now user (pos article) db =
    if any (queued_by user (pos article)) db.queue_articles
    then some db
    else if any (λ a. nat_eq a.id article) db.articles && any (λ u. nat_eq u.id user) db.users
    then some (new_row now user article db)
    else none

unfoldable pub remove_from_queue : ℕ → ℤ → Database → Database
remove_from_queue user article db = record db {
  queue_articles = keep (λ r. not (queued_by user article r)) db.queue_articles;
}

unfoldable pub get_queue_count : Database → ℕ → ℕ
get_queue_count db user = length (keep (λ r. nat_eq r.user_id user) db.queue_articles)
