-- ===== src/Auth/Cache.antt =====
-- srv/auth.go: `userCache`, and the time of the last write of `last_seen_at` that its entries keep.
use feedreader.Prelude.{
  ℕ, String, Bool, not, Option, none, some, [], ◌<◌, ◌-◌, ltb, leb, length, is_some, ◌&&◌,
  String_eq, if◌then◌else◌, ◌≡◌,
}
use feedreader.Prelude.Dict.{Dict, lookup, insert, delete}
use feedreader.Http.{User}

pub record CachedUser : Type 0 where
  pub user : User
  pub last_seen_unix_nano : ℕ

pub record UserCache : Type 0 where
  pub entries : Dict String CachedUser
  pub max : ℕ

abbrev pub max_auth_cache_entries : ℕ
max_auth_cache_entries = 4096

-- The key that `for k := range c.entries` meets first: Go does not say which, only that it is one
-- of the map's.
pub record FirstKey : Type 0 where
  pub pick : Dict String CachedUser → Option String
  pub picks :
      (m : Dict String CachedUser)
      → 0 < length m
      → (k : String) × (u : CachedUser) × (pick m ≡ some k) × (lookup k m ≡ some u)

unfoldable pub new_user_cache : ℕ → UserCache
new_user_cache max_size = record { entries = []; max = max_size }

unfoldable pub get : UserCache → String → Option CachedUser
get c key = lookup key c.entries

abbrev pub evict : Option String → Dict String CachedUser → Dict String CachedUser
evict none entries = entries
evict (some k) entries = delete k entries

unfoldable pub set : FirstKey → String → CachedUser → UserCache → UserCache
set first key u c = record c {
  entries = insert key u (
      if not (is_some (lookup key c.entries)) && leb c.max (length c.entries)
      then evict (first.pick c.entries) c.entries
      else c.entries);
}

abbrev pub len : UserCache → ℕ
len c = length c.entries

abbrev pub minute : ℕ
minute = 60000000000

-- `now.Sub(time.Unix(0, prev)) > time.Minute`, for the value that was loaded
abbrev pub is_due : ℕ → ℕ → Bool
is_due prev now = ltb minute (now - prev)
