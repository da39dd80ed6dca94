-- ===== src/Retention/Gone.antt =====
-- srv/retention.go and srv/feeds/fetcher.go together: an article that a cleanup removes stays away.
use mathlib.Core.List.{Memᴰ}
use feedreader.Prelude.{
  ℕ, ◌≡◌, refl, sym, ap, ◌∙◌, Bool, true, false, not, List, [], ◌∷◌, ◌+◌, ◌*◌, ◌<◌, ◌≤◌, ltb,
  String_eq, ◌&&◌, any, any_of_mem, mem_of_any, mem_of_keep, keep, keep_mem, any-keep, Bool-cases,
  inl, inr, arith,
}
use text.Mathlib.TextEquality.{eq_iff}
use feedreader.Db.Models.{Article, SeenGuid, Database}
use feedreader.Db.Calls.{
  Faults, insert_seen_guids_call, delete_old_unstarred_articles_call, prune_seen_guids_call,
}
use feedreader.Db.SeenGuids.{
  day, same_guid, record_guids, insert_seen_guids, delete_old_unstarred_articles, is_guid_seen,
  is_pruned, is_expired, prune_seen_guids,
}
use feedreader.Fetcher.Articles.{has_guid, UniqueRows, IsValid}
use feedreader.Fetcher.Seen.{Storing, store_all, checks, store_all-Blocked}
use feedreader.Retention.Cleanup.{
  Stamps, get_user_retention_days, cleanup_user, record_seen, prune_seen, double_days,
}
use feedreader.Retention.Recorded.{count_pos, record_guids_stamped}

-- UNIQUE(feed_id, guid): no two rows of the table have the same guid
same_row :
    (a b : Article) (xs : List Article)
    → UniqueRows xs
    → Memᴰ a xs
    → Memᴰ b xs
    → has_guid a.feed_id a.guid b ≡ true
    → b ≡ a
same_row a b [] u m n h = elim m [ ]
same_row a b (x ∷ xs) u (Memᴰ.head e) (Memᴰ.head k) h = k ∙ sym e
same_row a b (x ∷ xs) (ids, guids, u) (Memᴰ.head e) (Memᴰ.tail n) h = absurd (
    ground (
      arith,
      ap (λ (c : Article). any (has_guid c.feed_id c.guid) xs) e ∙ guids,
      any_of_mem (has_guid a.feed_id a.guid) n h,
    ))
same_row a b (x ∷ xs) (ids, guids, u) (Memᴰ.tail m) (Memᴰ.head k) h = absurd (
    ground (
      arith,
      ap (λ (c : Article). any (has_guid c.feed_id c.guid) xs) k ∙ guids,
      any_of_mem (has_guid b.feed_id b.guid) m (flipped a b h),
    ))
  where
    flipped :
        (c d : Article) → has_guid c.feed_id c.guid d ≡ true → has_guid d.feed_id d.guid c ≡ true
    flipped c d k = ground (arith, eq_iff c.guid d.guid, eq_iff d.guid c.guid)
same_row a b (x ∷ xs) (ids, guids, u) (Memᴰ.tail m) (Memᴰ.tail n) h = same_row a b xs u m n h

-- the guid of a row that is taken out is in no row that is left
keep-gone :
    (p : Article → Bool) (a : Article) (xs : List Article)
    → UniqueRows xs
    → Memᴰ a xs
    → p a ≡ true
    → any (has_guid a.feed_id a.guid) (keep (λ b. not (p b)) xs) ≡ false
keep-gone p a xs u m h =
    elim (Bool-cases (any (has_guid a.feed_id a.guid) (keep (λ b. not (p b)) xs))) [
      | inr none_left ↦ none_left
      | inl left ↦
          let (b, k, same) = mem_of_any (has_guid a.feed_id a.guid) _ left in
          let (n, kept) = mem_of_keep (λ c. not (p c)) xs k in
          absurd (ground (arith, ap p (same_row a b xs u m n same)))
    ]

-- an article that is old enough stays so
expired_later :
    (db : Database) (user days early late : ℕ) (a : Article)
    → early ≤ late
    → is_expired db user days early a ≡ true
    → is_expired db user days late a ≡ true
expired_later db user days early late a le h = ground arith

-- a guid recorded at the time of the insertion outlives the pruning of the same round
pruned_not :
    (days stamp now : ℕ) (s : SeenGuid)
    → now ≤ stamp + day * (days * 2)
    → s.seen_at ≡ stamp
    → is_pruned (double_days days) now s ≡ false
pruned_not days stamp now s le e = elim (Bool-cases (ltb (days * 2) 9223372036854775808)) [
  | inl fits ↦ rw fits (ground arith)
  | inr wraps ↦ rw wraps refl
]

-- a guid that is recorded, and not pruned, counts as seen
seen_after :
    (faults : Faults) (user days : ℕ) (now : Stamps) (db : Database) (a : Article)
    → faults (insert_seen_guids_call user) ≡ false
    → Memᴰ a db.articles
    → is_expired db user days now.at_insert a ≡ true
    → any (same_guid a.feed_id a.guid) db.seen_guids ≡ false
    → now.at_prune ≤ now.at_insert + day * (days * 2)
    → 0
      < is_guid_seen
          (prune_seen faults user days now.at_prune (
            delete_old_unstarred_articles user days now.at_delete
              (record_seen faults user days now.at_insert db)))
          a.feed_id
          a.guid
unfolding is_guid_seen prune_seen_guids delete_old_unstarred_articles insert_seen_guids
seen_after faults user days now db a i m old fresh late =
    elim (Bool-cases (faults (prune_seen_guids_call user))) [
      | inl failed ↦
          rw (i, failed)
            (count_pos mine recorded (
              record_guids_stamped mine a.feed_id a.guid now.at_insert expired db.seen_guids
                (λ b h. h) fresh present))
      | inr done ↦
          rw (i, done)
            (count_pos mine (keep kept recorded) (
              any-keep mine kept recorded
              ∙ record_guids_stamped (λ s. kept s && mine s) a.feed_id a.guid now.at_insert expired
                  db.seen_guids
                  (λ b h. ground (
                    arith,
                    pruned_not days now.at_insert now.at_prune
                        (record { feed_id = b.feed_id; guid = b.guid; seen_at = now.at_insert })
                        late refl,
                  ))
                  fresh present))
    ]
  where
    mine : SeenGuid → Bool
    mine = same_guid a.feed_id a.guid

    kept : SeenGuid → Bool
    kept s = not (is_pruned (double_days days) now.at_prune s)

    expired : List Article
    expired = keep (is_expired db user days now.at_insert) db.articles

    recorded : List SeenGuid
    recorded = record_guids now.at_insert expired db.seen_guids

    present : any (has_guid a.feed_id a.guid) expired ≡ true
    present =
        any_of_mem (has_guid a.feed_id a.guid)
          (keep_mem (is_expired db user days now.at_insert) m old)
          (ground (arith, eq_iff a.guid a.guid))

-- an expired article is no row of the table after the DELETE
gone_after :
    (faults : Faults) (user days : ℕ) (now : Stamps) (db : Database) (a : Article)
    → faults (insert_seen_guids_call user) ≡ false
    → UniqueRows db.articles
    → Memᴰ a db.articles
    → is_expired db user days now.at_insert a ≡ true
    → now.at_insert ≤ now.at_delete
    → any (has_guid a.feed_id a.guid) (
        (prune_seen faults user days now.at_prune (
          delete_old_unstarred_articles user days now.at_delete
            (record_seen faults user days now.at_insert db))).articles)
      ≡ false
unfolding prune_seen_guids delete_old_unstarred_articles insert_seen_guids
gone_after faults user days now db a i u m old le =
    elim (Bool-cases (faults (prune_seen_guids_call user))) [
      | inl failed ↦ rw (i, failed) removed
      | inr done ↦ rw (i, done) removed
    ]
  where
    removed :
        any
          (has_guid a.feed_id a.guid)
          (keep (λ b. not (is_expired db user days now.at_delete b)) db.articles)
        ≡ false
    removed =
        keep-gone (is_expired db user days now.at_delete) a db.articles u m
          (expired_later db user days now.at_insert now.at_delete a le old)

module _ (faults : Faults) (user : ℕ) (now : Stamps) (db : Database) where
  abbrev pub days_kept : ℕ
  days_kept = get_user_retention_days faults db user

  cleanup_user-done :
      faults (delete_old_unstarred_articles_call user) ≡ false
      → (cleanup_user faults user now db).0
        ≡ prune_seen faults user days_kept now.at_prune (
            delete_old_unstarred_articles user days_kept now.at_delete
              (record_seen faults user days_kept now.at_insert db))
  unfolding cleanup_user
  cleanup_user-done d = rw d refl

  -- In a table whose keys are distinct, an article that is expired when the cleanup of a user
  -- records it, and whose guid was not yet on record, is not in the table after that cleanup and
  -- then any number of storings of items, of any feeds, at any times and with any items, as long as
  -- no other cleanup comes in between. The cleanup has recorded and, no earlier, deleted, and has
  -- pruned no later than twice the user's number of days after it recorded; its recording and its
  -- deletion have not failed, nor has any storing's check of the guid.
  pub cleaned_article_stays_away :
      (a : Article) (storings : List Storing)
      → IsValid db
      → Memᴰ a db.articles
      → is_expired db user days_kept now.at_insert a ≡ true
      → any (same_guid a.feed_id a.guid) db.seen_guids ≡ false
      → now.at_insert ≤ now.at_delete
      → now.at_prune ≤ now.at_insert + day * (days_kept * 2)
      → faults (insert_seen_guids_call user) ≡ false
      → faults (delete_old_unstarred_articles_call user) ≡ false
      → checks a.guid storings ≡ true
      → any
          (has_guid a.feed_id a.guid)
          (store_all storings (cleanup_user faults user now db).0).articles
        ≡ false
  cleaned_article_stays_away a storings v m old fresh le late i d f =
      rw (cleanup_user-done d)
        (store_all-Blocked storings a.feed_id a.guid false _ f (
          let seen = seen_after faults user days_kept now db a i m old fresh late in ground arith,
          gone_after faults user days_kept now db a i v.unique m old le,
        )).1
