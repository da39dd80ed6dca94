-- ===== src/Retention/Protected.antt =====
-- srv/retention.go: the articles that no cleanup takes.
use mathlib.Core.List.{Memᴰ}
use feedreader.Prelude.{
  ℕ, ◌≡◌, ◌⊎◌, ap, ◌∙◌, Bool, true, false, not, List, [], ◌∷◌, ◌&&◌, ◌||◌, any, any_of_mem,
  mem_of_any, mem_of_keep, keep, keep_mem, map, Bool-cases, inl, inr, arith, nat_eq_iff, nat_eq,
}
use feedreader.Db.Models.{Article, Feed, QueueArticle, Database}
use feedreader.Db.Calls.{
  Faults, is_zero, insert_seen_guids_call, delete_old_unstarred_articles_call,
  prune_seen_guids_call, list_all_user_ids_call,
}
use feedreader.Db.SeenGuids.{
  insert_seen_guids, delete_old_unstarred_articles, is_expired, prune_seen_guids, queued,
  retained_feed,
}
use feedreader.Server.{Server}
use feedreader.Retention.Cleanup.{
  Stamps, cleanup_user, cleanup_users, cleanup, record_seen, prune_seen,
}

-- some feed with the number takes part in retention, whoever owns it
abbrev pub takes_part : List Feed → ℕ → Bool
takes_part feeds id = any (λ f. nat_eq f.id id && nat_eq f.skip_retention 0) feeds

-- starred, in a reading queue, or of a feed that skips retention
abbrev pub is_protected : Database → Article → Bool
is_protected db a =
    (not (is_zero a.is_starred) || queued db.queue_articles a.id)
    || not (takes_part db.feeds a.feed_id)

-- the article is in the table, and protected
abbrev pub Held : Article → Database → Type 0
Held a db = Memᴰ a db.articles × (is_protected db a ≡ true)

retained-takes_part :
    (feeds : List Feed) (user id : ℕ)
    → retained_feed feeds user id ≡ true
    → takes_part feeds id ≡ true
retained-takes_part [] user id h = h
retained-takes_part (f ∷ feeds) user id h = ground (arith, retained-takes_part feeds user id)

not_expired :
    (db : Database) (user days now : ℕ) (a : Article)
    → is_protected db a ≡ true
    → is_expired db user days now a ≡ false
not_expired db user days now a h = ground (arith, retained-takes_part db.feeds user a.feed_id)

-- the cascade takes no queue entry of a queued article
queue_kept :
    (db : Database) (user days now id : ℕ)
    → queued db.queue_articles id ≡ true
    → queued (delete_old_unstarred_articles user days now db).queue_articles id ≡ true
unfolding delete_old_unstarred_articles
queue_kept db user days now id h =
    let (q, m, e) = mem_of_any (λ q. nat_eq q.article_id id) db.queue_articles h in
    any_of_mem (λ q. nat_eq q.article_id id)
      (keep_mem (λ r. not (gone r)) m (stays q e (Bool-cases (gone q)))) e
  where
    expired : List Article
    expired = keep (is_expired db user days now) db.articles

    gone : QueueArticle → Bool
    gone q = any (λ b. nat_eq b.id q.article_id) expired

    stays :
        (q : QueueArticle)
        → nat_eq q.article_id id ≡ true
        → (gone q ≡ true) ⊎ (gone q ≡ false)
        → not (gone q) ≡ true
    stays q e (inr k) = ap not k
    stays q e (inl k) =
        let (b, n, same) = mem_of_any (λ b. nat_eq b.id q.article_id) expired k in
        let (o, old) = mem_of_keep (is_expired db user days now) db.articles n in
        absurd (
          ground (
            arith,
            ap (queued db.queue_articles)
                ((nat_eq_iff b.id q.article_id).0 same ∙ (nat_eq_iff q.article_id id).0 e),
          ))

delete-Held :
    (user days now : ℕ) (a : Article) (db : Database)
    → Held a db
    → Held a (delete_old_unstarred_articles user days now db)
unfolding delete_old_unstarred_articles
delete-Held user days now a db (m, h) = (
  keep_mem _ m (ap not (not_expired db user days now a h)),
  ground (arith, queue_kept db user days now a.id),
)

record-Held :
    (faults : Faults) (user days now : ℕ) (a : Article) (db : Database)
    → Held a db
    → Held a (record_seen faults user days now db)
unfolding insert_seen_guids
record-Held faults user days now a db h = elim (Bool-cases (faults (insert_seen_guids_call user))) [
  | inl e ↦ rw e h
  | inr e ↦ rw e h
]

prune-Held :
    (faults : Faults) (user days now : ℕ) (a : Article) (db : Database)
    → Held a db
    → Held a (prune_seen faults user days now db)
unfolding prune_seen_guids
prune-Held faults user days now a db h = elim (Bool-cases (faults (prune_seen_guids_call user))) [
  | inl e ↦ rw e h
  | inr e ↦ rw e h
]

module _ (faults : Faults) (a : Article) where
  cleanup_user-Held :
      (user : ℕ) (now : Stamps) (db : Database)
      → Held a db
      → Held a (cleanup_user faults user now db).0
  unfolding cleanup_user
  cleanup_user-Held user now db h =
      elim (Bool-cases (faults (delete_old_unstarred_articles_call user))) [
        | inl e ↦ rw e (record-Held faults user _ now.at_insert a db h)
        | inr e ↦ rw e (
            prune-Held faults user _ now.at_prune a _ (
              delete-Held user _ now.at_delete a _
                (record-Held faults user _ now.at_insert a db h)))
      ]

  cleanup_users-Held :
      (users : List ℕ) (now : ℕ → Stamps) (db : Database) (total : ℕ)
      → Held a db
      → Held a (cleanup_users faults users now db total).0
  unfolding cleanup_users
  cleanup_users-Held [] now db total h = h
  cleanup_users-Held (user ∷ users) now db total h =
      cleanup_users-Held users now _ _ (cleanup_user-Held user (now user) db h)

  -- No cleanup takes an article that is starred, stands in a queue, or belongs to no feed that
  -- takes part in retention: for any users, settings, times and failing statements it is in the
  -- table afterwards, and still protected.
  pub cleanup-Held :
      (now : ℕ → Stamps) (s : Server) → Held a s.db → Held a (cleanup faults now s).db
  unfolding cleanup
  cleanup-Held now s h = elim (Bool-cases (faults list_all_user_ids_call)) [
    | inl e ↦ rw e h
    | inr e ↦ rw e (cleanup_users-Held (map (λ u. u.id) s.db.users) now s.db 0 h)
  ]
