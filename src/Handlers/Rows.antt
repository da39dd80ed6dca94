-- ===== src/Handlers/Rows.antt =====
-- What a request of one user leaves alone: the rows of the other users, under each statement that
-- the handlers of srv/server.go run, and the outcomes of a handler.
use feedreader.Prelude.{
  if_holds, ℕ, String, ◌≡◌, refl, ap, ◌∙◌, Bool, true, false, not, Option, none, some, List, [],
  ◌∷◌, map, nat_eq, ◌&&◌, any, keep, keep-append, nat_eq_iff, Bool-cases, inl, inr, ◌⊎◌, arith,
  if◌then◌else◌, ◌==◌, String_eq,
}
use mathlib.Core.List.{append-nil}
use feedreader.Prelude.Int.{ℤ, pos, negsuc}
use feedreader.Http.{Response}
use feedreader.Server.{Server}
use feedreader.CountsCache.{invalidate}
use feedreader.Db.Models.{Article, QueueArticle, Database}
use feedreader.Db.Calls.{Faults, Call, ask}
use feedreader.Db.Rules.{owns_feed}
use feedreader.Db.Reading.{of_user, update_where}
use feedreader.Db.Queue.{add_to_queue, remove_from_queue, new_row, queued_by}
use feedreader.Handlers.Articles.{parsed, written, by_age}

-- Only articles of the user's feeds and rows of the user's queue differ: the others are the same
-- rows in the same order, and no other table changes.
abbrev pub OnlyOf : ℕ → Database → Database → Type 0
OnlyOf user db db' =
    (keep (λ a. not (of_user db user a)) db'.articles
      ≡ keep (λ a. not (of_user db user a)) db.articles)
    × (keep (λ r. not (nat_eq r.user_id user)) db'.queue_articles
        ≡ keep (λ r. not (nat_eq r.user_id user)) db.queue_articles)
    × (db' ≡ record db {
      articles = db'.articles;
      queue_articles = db'.queue_articles;
      next_queue_article_id = db'.next_queue_article_id;
    })

keep-map_other {ℓ} :
    {A : Type ℓ} (p q : A → Bool) (f : A → A) (xs : List A)
    → ((a : A) → q a ≡ true → p a ≡ false)
    → ((a : A) → p (f a) ≡ p a)
    → keep p (map (λ a. if q a then f a else a) xs) ≡ keep p xs
keep-map_other p q f [] h k = refl
keep-map_other p q f (x ∷ xs) h k = elim (Bool-cases (q x)) [
  | inl e ↦ rw (e, k x, h x e) (keep-map_other p q f xs h k)
  | inr e ↦ rw e (ap (λ rest. if p x then x ∷ rest else rest) (keep-map_other p q f xs h k))
]

module _ (user : ℕ) (db : Database) where
  pub OnlyOf-refl : OnlyOf user db db
  OnlyOf-refl = (refl, refl, refl)

  -- an UPDATE of the user's articles
  pub OnlyOf-update_where :
      (w : Article → Bool) (f : Article → Article) (d : Database)
      → ((a : Article) → (f a).feed_id ≡ a.feed_id)
      → OnlyOf user db d
      → OnlyOf user db (update_where (λ a. w a && of_user d user a) f d)
  OnlyOf-update_where w f d same (articles, queue, rest) =
      let feeds = ap (λ (x : Database). x.feeds) rest in
      (
        keep-map_other (λ a. not (of_user db user a)) (λ a. w a && of_user d user a) f d.articles
              (λ a e. own a feeds e)
              (λ a. ap (λ n. not (owns_feed db.feeds n (some user))) (same a))
            ∙ articles,
        queue,
        ap
            (λ (x : Database). record x {
              articles = map (λ a. if w a && of_user d user a then f a else a) d.articles;
              queue_articles = d.queue_articles;
              next_queue_article_id = d.next_queue_article_id;
            })
            rest,
      )
    where
      own :
          (a : Article)
          → d.feeds ≡ db.feeds
          → (w a && of_user d user a) ≡ true
          → not (of_user db user a) ≡ false
      own a feeds e =
          let same_owner = ap (λ fs. owns_feed fs a.feed_id (some user)) feeds in ground arith

  -- what holds of the database that a statement returns, if it returns one
  abbrev pub OnOk : (Database → Type 0) → Option Database → Type 0
  OnOk P none = Unit {0}
  OnOk P (some d) = P d

  pub ask-OnOk :
      (P : Database → Type 0) (faults : Faults) (call : Call) (d : Database)
      → P d
      → OnOk P (ask faults call d)
  ask-OnOk P faults call d h = elim (Bool-cases (faults call)) [ inl e ↦ rw e tt | inr e ↦ rw e h ]

keep_other_rows :
    (user : ℕ) (article : ℤ) (rows : List QueueArticle)
    → keep (λ r. not (nat_eq r.user_id user)) (keep (λ r. not (queued_by user article r)) rows)
      ≡ keep (λ r. not (nat_eq r.user_id user)) rows
keep_other_rows user article [] = refl
keep_other_rows user article (r ∷ rows) = ground (arith, keep_other_rows user article rows)

pub remove_from_queue-OnlyOf :
    (user : ℕ) (article : ℤ) (db : Database) → OnlyOf user db (remove_from_queue user article db)
unfolding remove_from_queue
remove_from_queue-OnlyOf user article db =
    (refl, keep_other_rows user article db.queue_articles, refl)

new_row-OnlyOf :
    (now user article : ℕ) (db : Database) → OnlyOf user db (new_row now user article db)
new_row-OnlyOf now user article db = (
  refl,
  keep-append (λ r. not (nat_eq r.user_id user)) db.queue_articles _
      ∙ rw ((nat_eq_iff user user).1 refl) (append-nil _),
  refl,
)

pub add_to_queue-OnlyOf :
    (now user : ℕ) (article : ℤ) (db : Database)
    → OnOk user db (OnlyOf user db) (add_to_queue now user article db)
unfolding add_to_queue
add_to_queue-OnlyOf now user (negsuc n) db = tt
add_to_queue-OnlyOf now user (pos n) db =
    elim (Bool-cases (any (queued_by user (pos n)) db.queue_articles)) [
      | inl old ↦ rw old (OnlyOf-refl user db)
      | inr new ↦
          elim (Bool-cases
            (any (λ a. nat_eq a.id n) db.articles && any (λ u. nat_eq u.id user) db.users)) [
              | inl there ↦ rw (new, there) (new_row-OnlyOf now user n db)
              | inr gone ↦ rw (new, gone) tt
            ]
    ]

-- Nothing happened, or the answer is 200, only the user's rows differ, and the user's counts are
-- dropped from the cache.
abbrev pub Outcome : ℕ → Server → Response × Server → Type 0
Outcome user s r =
    (r.1 ≡ s)
    ⊎ ((r.0.status ≡ 200)
        × OnlyOf user s.db r.1.db
        × (r.1.counts_cache ≡ invalidate s.counts_cache user))

pub written-Outcome :
    (user : ℕ) (o : Option Database) (s : Server)
    → OnOk user s.db (OnlyOf user s.db) o
    → Outcome user s (written user o s)
written-Outcome user none s h = inl refl
written-Outcome user (some db) s h = inr (refl, h, refl)

pub parsed-Outcome :
    (user : ℕ) (id : Option ℤ) (s : Server) (next : ℤ → Response × Server)
    → ((n : ℤ) → Outcome user s (next n))
    → Outcome user s (parsed id s next)
parsed-Outcome user none s next h = inl refl
parsed-Outcome user (some n) s next h = h n

pub by_age_holds :
    (P : Database → Type 0) (age : String) (older : ℕ → Database) (all : Database)
    → ((days : ℕ) → P (older days))
    → P all
    → P (by_age age older all)
by_age_holds P age older all h k =
    if_holds P (age == "day") _ _ (h 1) (if_holds P (age == "week") _ _ (h 7) k)
