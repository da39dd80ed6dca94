-- ===== src/CountsCache.antt =====
-- srv/counts_cache.go: article counts of each user, with a time to live. A nil `*CountsCache` is
-- `none`. Times are seconds of one monotonic clock; the mutex makes each operation one step.
pub mod Laws
use feedreader.Prelude.{ℕ, Bool, Option, none, some, [], ltb, ◌-◌, ℕ_eq, if◌then◌else◌}
use feedreader.Prelude.Dict.{Dict, lookup, insert, delete}

-- `articleCounts` of srv/server.go
pub record ArticleCounts : Type 0 where
  pub unread : ℕ
  pub starred : ℕ
  pub queue : ℕ
  pub alerts : ℕ
  pub feed_counts : Dict ℕ ℕ
  pub cat_counts : Dict ℕ ℕ

pub record CountsCacheEntry : Type 0 where
  pub counts : ArticleCounts
  pub cached_at : ℕ

pub record CountsCache : Type 0 where
  pub entries : Dict ℕ CountsCacheEntry
  pub ttl : ℕ

unfoldable pub new_counts_cache : ℕ → Option CountsCache
new_counts_cache ttl = some (record { entries = []; ttl = ttl })

-- `!ok || time.Since(e.cachedAt) > c.ttl`
abbrev pub fresh : Option CountsCacheEntry → ℕ → ℕ → Option ArticleCounts
fresh none ttl now = none
fresh (some e) ttl now = if ltb ttl (now - e.cached_at) then none else some e.counts

-- `none` is `(articleCounts{}, false)`
unfoldable pub get : Option CountsCache → ℕ → ℕ → Option ArticleCounts
get none user now = none
get (some c) user now = fresh (lookup user c.entries) c.ttl now

unfoldable pub set : Option CountsCache → ℕ → ArticleCounts → ℕ → Option CountsCache
set none user counts now = none
set (some c) user counts now =
    some
      (record c { entries = insert user (record { counts = counts; cached_at = now }) c.entries })

unfoldable pub invalidate : Option CountsCache → ℕ → Option CountsCache
invalidate none user = none
invalidate (some c) user = some (record c { entries = delete user c.entries })

unfoldable pub invalidate_all : Option CountsCache → Option CountsCache
invalidate_all none = none
invalidate_all (some c) = some (record c { entries = [] })
