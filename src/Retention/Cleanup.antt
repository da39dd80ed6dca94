-- ===== src/Retention/Cleanup.antt =====
-- srv/retention.go: `getUserRetentionDays`, `cleanup` and `RunCleanupNow`.
use feedreader.Prelude.{
  ℕ, String, Bool, Option, none, some, List, [], ◌∷◌, map, ◌+◌, ◌*◌, ◌^◌, ltb, if◌then◌else◌,
}
use feedreader.Prelude.Int.{ℤ, pos, negsuc}
use feedreader.Strings.Numbers.{atoi}
use feedreader.Db.Models.{Database}
use feedreader.Db.Calls.{
  Faults, ask, get_user_setting_call, list_all_user_ids_call, insert_seen_guids_call,
  delete_old_unstarred_articles_call, prune_seen_guids_call, rows_affected_call,
}
use feedreader.Db.SeenGuids.{
  get_user_setting, insert_seen_guids, delete_old_unstarred_articles, rows_deleted,
  prune_seen_guids,
}
use feedreader.CountsCache.{CountsCache, invalidate_all}
use feedreader.Server.{Server}

-- `datetime('now')` at each of the three statements that a round of the loop runs
pub record Stamps : Type 0 where
  pub at_insert : ℕ
  pub at_delete : ℕ
  pub at_prune : ℕ

abbrev pub default_retention_days : ℕ
default_retention_days = 30

-- `days, err := strconv.Atoi(val); if err != nil || days < 1`
abbrev pub days_or_default : Option ℤ → ℕ
days_or_default none = default_retention_days
days_or_default (some (negsuc n)) = default_retention_days
days_or_default (some (pos n)) = if ltb n 1 then default_retention_days else n

abbrev pub setting_days : Option String → ℕ
setting_days none = default_retention_days
setting_days (some val) = days_or_default (atoi val)

abbrev pub join {ℓ} : {A : Type ℓ} → Option (Option A) → Option A
join none = none
join (some o) = o

-- `days*2` in 64 bits; where it wraps it is negative, and the pruning statement deletes nothing
abbrev pub double_days : ℕ → Option ℕ
double_days days = if ltb (days * 2) (2 ^ 63) then some (days * 2) else none

module _ (faults : Faults) where
  -- a missing row is an error too
  unfoldable pub get_user_retention_days : Database → ℕ → ℕ
  unfolding atoi
  get_user_retention_days db user =
      setting_days
        (join (ask faults (get_user_setting_call user) (get_user_setting db user "retentionDays")))

  -- an error of this statement is logged, and the cleanup goes on
  abbrev pub record_seen : ℕ → ℕ → ℕ → Database → Database
  record_seen user days now db =
      if faults (insert_seen_guids_call user) then db else insert_seen_guids user days now db

  abbrev pub prune_seen : ℕ → ℕ → ℕ → Database → Database
  prune_seen user days now db =
      if faults (prune_seen_guids_call user) then db else prune_seen_guids (double_days days) now db

  -- `deleted, _ := result.RowsAffected()`
  abbrev pub affected : ℕ → ℕ
  affected n = if faults rows_affected_call then 0 else n

  -- one round of the loop of `cleanup`: the database, and what is added to `totalDeleted`
  unfoldable pub cleanup_user : ℕ → Stamps → Database → Database × ℕ
  unfolding get_user_retention_days insert_seen_guids
  cleanup_user user now db =
      let days = get_user_retention_days db user in
      let recorded = record_seen user days now.at_insert db in
      if faults (delete_old_unstarred_articles_call user) then (recorded, 0) else (
        prune_seen user days now.at_prune
            (delete_old_unstarred_articles user days now.at_delete recorded),
        affected (rows_deleted user days now.at_delete recorded),
      )

  unfoldable pub cleanup_users : List ℕ → (ℕ → Stamps) → Database → ℕ → Database × ℕ
  unfolding cleanup_user
  cleanup_users [] now db total = (db, total)
  cleanup_users (user ∷ users) now db total =
      let (db', deleted) = cleanup_user user (now user) db in
      cleanup_users users now db' (total + deleted)

  abbrev pub finish : Option CountsCache → Database × ℕ → Server
  finish cache (db, total) = record {
    db = db;
    counts_cache = if ltb 0 total then invalidate_all cache else cache;
  }

  abbrev pub cleanup_listed : Option (List ℕ) → (ℕ → Stamps) → Server → Server
  cleanup_listed none now s = s
  cleanup_listed (some users) now s = finish s.counts_cache (cleanup_users users now s.db 0)

  unfoldable pub cleanup : (ℕ → Stamps) → Server → Server
  unfolding cleanup_users
  cleanup now s =
      cleanup_listed (ask faults list_all_user_ids_call (map (λ u. u.id) s.db.users)) now s

  -- `none` is the error of the DELETE; an error of RowsAffected is the `true` beside the number
  unfoldable pub run_cleanup_now : ℕ → Stamps → Server → Server × Option (ℕ × Bool)
  unfolding get_user_retention_days insert_seen_guids
  run_cleanup_now user now s =
      let days = get_user_retention_days s.db user in
      let recorded = record_seen user days now.at_insert s.db in
      if faults (delete_old_unstarred_articles_call user)
      then (record s { db = recorded }, none)
      else (let deleted = affected (rows_deleted user days now.at_delete recorded) in
          (
            record {
              db = delete_old_unstarred_articles user days now.at_delete recorded;
              counts_cache =
                  if ltb 0 deleted then invalidate_all s.counts_cache else s.counts_cache;
            },
            some (deleted, faults rows_affected_call),
          ))
