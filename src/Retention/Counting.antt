-- ===== src/Retention/Counting.antt =====
-- srv/retention.go: the number that `RunCleanupNow` returns, the counts cache, and the rows that
-- the pruning of one user's cleanup takes.
use mathlib.Core.List.{Memᴰ}
use feedreader.Prelude.{
  ℕ, String, ◌≡◌, refl, ap, ◌∙◌, Bool, true, false, not, some, List, [], ◌∷◌, ◌+◌, ltb, ◌&&◌, ◌==◌,
  String_eq, any, any-append, any-keep, keep, length, mem_of_keep, Bool-cases, inl, inr, arith,
  if◌then◌else◌, nat_eq_iff, nat_eq,
}
use feedreader.CountsCache.{invalidate_all}
use feedreader.Db.Models.{Article, SeenGuid, Database}
use feedreader.Db.Calls.{
  Faults, insert_seen_guids_call, delete_old_unstarred_articles_call, prune_seen_guids_call,
  rows_affected_call,
}
use feedreader.Db.SeenGuids.{
  insert_seen_guids, delete_old_unstarred_articles, is_expired, prune_seen_guids, is_pruned,
  retained_feed, rows_deleted, record_guids, same_guid, is_guid_seen,
}
use feedreader.Server.{Server}
use feedreader.Retention.Cleanup.{
  Stamps, get_user_retention_days, cleanup_user, record_seen, double_days, run_cleanup_now,
}
use feedreader.Retention.Gone.{days_kept}

-- the rows that pass a test and the rows that do not
length-split {ℓ} :
    {A : Type ℓ} (p : A → Bool) (xs : List A)
    → length (keep p xs) + length (keep (λ x. not (p x)) xs) ≡ length xs
length-split p [] = refl
length-split p (x ∷ xs) = ground (arith, length-split p xs)

record-articles :
    (faults : Faults) (user days now : ℕ) (db : Database)
    → (record_seen faults user days now db).articles ≡ db.articles
unfolding insert_seen_guids
record-articles faults user days now db = elim (Bool-cases (faults (insert_seen_guids_call user))) [
  | inl e ↦ rw e refl
  | inr e ↦ rw e refl
]

deleted_and_left :
    (user days now : ℕ) (db : Database)
    → rows_deleted user days now db
        + length (delete_old_unstarred_articles user days now db).articles
      ≡ length db.articles
unfolding rows_deleted delete_old_unstarred_articles
deleted_and_left user days now db = length-split (is_expired db user days now) db.articles

when_positive {ℓ} :
    {C : Type ℓ} (n : ℕ) (x y : C) → (if ltb 0 n then x else y) ≡ (if nat_eq n 0 then y else x)
when_positive n x y = ground arith

-- `RunCleanupNow`, with neither its DELETE nor RowsAffected failing, returns without an error the
-- number of rows by which the table of articles shrinks; it drops every entry of the counts cache
-- when that number is positive and leaves the cache alone when it is zero.
pub run_cleanup_now-count :
    (faults : Faults) (user : ℕ) (now : Stamps) (s : Server)
    → faults (delete_old_unstarred_articles_call user) ≡ false
    → faults rows_affected_call ≡ false
    → (n : ℕ) × ((run_cleanup_now faults user now s).1 ≡ some (n, false))
      × (n + length (run_cleanup_now faults user now s).0.db.articles ≡ length s.db.articles)
      × ((run_cleanup_now faults user now s).0.counts_cache
          ≡ (if nat_eq n 0 then s.counts_cache else invalidate_all s.counts_cache))
unfolding run_cleanup_now
run_cleanup_now-count faults user now s d r = (
  rows_deleted user days now.at_delete recorded,
  (rw (d, r) refl),
  (rw d (
      deleted_and_left user days now.at_delete recorded
      ∙ ap length (record-articles faults user days now.at_insert s.db))),
  (rw (d, r) (when_positive (rows_deleted user days now.at_delete recorded) _ _)),
)
  where
    days : ℕ
    days = days_kept faults user now s.db

    recorded : Database
    recorded = record_seen faults user days now.at_insert s.db

-- rows that fail a test stay the only ones when each new row fails it too
record_guids_none :
    (p : SeenGuid → Bool) (now : ℕ) (xs : List Article) (seen : List SeenGuid)
    → ((a : Article)
        → Memᴰ a xs
        → p (record { feed_id = a.feed_id; guid = a.guid; seen_at = now }) ≡ false)
    → any p seen ≡ false
    → any p (record_guids now xs seen) ≡ false
unfolding record_guids
record_guids_none p now [] seen h k = k
record_guids_none p now (a ∷ xs) seen h k =
    elim (Bool-cases (any (same_guid a.feed_id a.guid) seen)) [
      | inl old ↦ rw old (record_guids_none p now xs seen (λ b m. h b (Memᴰ.tail m)) k)
      | inr new ↦ rw new (
          record_guids_none p now xs _ (λ b m. h b (Memᴰ.tail m))
            (any-append p seen _ ∙ ground (arith, h a (Memᴰ.head refl))))
    ]

none_counted {ℓ} :
    {A : Type ℓ} (p : A → Bool) (xs : List A) → any p xs ≡ false → length (keep p xs) ≡ 0
none_counted p [] h = refl
none_counted p (x ∷ xs) h = ground (arith, none_counted p xs)

-- A cleanup of one user whose DELETE and pruning succeed forgets the guids of a feed that takes no
-- part in that user's retention, another user's feed too: a guid all of whose rows are older than
-- twice this user's number of days counts as unseen afterwards.
pub cleanup_user-forgets :
    (faults : Faults) (user : ℕ) (now : Stamps) (db : Database) (feed : ℕ) (guid : String)
    → retained_feed db.feeds user feed ≡ false
    → any
        (λ s.
          not (is_pruned (double_days (get_user_retention_days faults db user)) now.at_prune s)
          && same_guid feed guid s)
        db.seen_guids
      ≡ false
    → faults (delete_old_unstarred_articles_call user) ≡ false
    → faults (prune_seen_guids_call user) ≡ false
    → is_guid_seen (cleanup_user faults user now db).0 feed guid ≡ 0
unfolding cleanup_user is_guid_seen prune_seen_guids delete_old_unstarred_articles insert_seen_guids
cleanup_user-forgets faults user now db feed guid other old d p =
    rw (d, p)
      (none_counted (same_guid feed guid) _ (
        any-keep (same_guid feed guid) (λ s. not (pruned s)) _
        ∙ elim (Bool-cases (faults (insert_seen_guids_call user))) [
          | inl failed ↦ rw failed old
          | inr done ↦ rw done (
              record_guids_none _ now.at_insert expired db.seen_guids
                (λ a m. not_mine a (mem_of_keep _ db.articles m).1) old)
        ]))
  where
    days : ℕ
    days = get_user_retention_days faults db user

    pruned : SeenGuid → Bool
    pruned s = is_pruned (double_days days) now.at_prune s

    expired : List Article
    expired = keep (is_expired db user days now.at_insert) db.articles

    not_mine :
        (a : Article)
        → is_expired db user days now.at_insert a ≡ true
        → (not (pruned (record { feed_id = a.feed_id; guid = a.guid; seen_at = now.at_insert }))
            && (nat_eq a.feed_id feed && a.guid == guid))
          ≡ false
    not_mine a h = elim (Bool-cases (nat_eq a.feed_id feed)) [
      | inl same ↦
          absurd
            (ground (arith, ap (retained_feed db.feeds user) ((nat_eq_iff a.feed_id feed).0 same)))
      | inr differs ↦ ground arith
    ]
