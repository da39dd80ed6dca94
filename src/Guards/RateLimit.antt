-- ===== src/Guards/RateLimit.antt =====
-- srv/ratelimit.go: `rateLimiter` and `rateLimitMiddleware`. The token bucket is
-- `golang.org/x/time/rate`, the fields of `Rate`.
use feedreader.Prelude.{
  ℕ, Bool, not, Option, none, some, [], ◌∷◌, ◌-◌, ltb, ◌||◌, ℕ_eq, if◌then◌else◌,
}
use feedreader.Prelude.Dict.{Dict, lookup, insert, delete}
use feedreader.Strings.{has_prefix}
use feedreader.Http.{User, Request, Verdict, answered, passed, is_state_changing}

pub record Rate : Type 1 where
  pub Limiter : Type 0
  -- rate.NewLimiter(limit, burst)
  pub new_limiter : ℕ → ℕ → Limiter
  -- Allow, at a time in nanoseconds
  pub allow : Limiter → ℕ → Limiter × Bool

module _ (rate : Rate) where
  pub record RateLimiter : Type 0 where
    pub writers : Dict ℕ rate.Limiter
    pub last_seen : Dict ℕ ℕ

  abbrev pub new_rate_limiter : RateLimiter
  new_rate_limiter = record { writers = []; last_seen = [] }

  -- 30 minutes
  abbrev pub is_stale : ℕ → ℕ → Bool
  is_stale now last = ltb 1800000000000 (now - last)

  -- one tick of `cleanup`: the loop over `lastSeen`, which deletes from both maps
  unfoldable pub sweep : ℕ → Dict ℕ ℕ → RateLimiter → RateLimiter
  sweep now [] rl = rl
  sweep now ((uid, last) ∷ rest) rl = sweep now rest (
      if is_stale now last
      then record { writers = delete uid rl.writers; last_seen = delete uid rl.last_seen }
      else rl)

  unfoldable pub cleanup_tick : ℕ → RateLimiter → RateLimiter
  unfolding sweep
  cleanup_tick now rl = sweep now rl.last_seen rl

  abbrev pub limiter_or_new : Option rate.Limiter → rate.Limiter
  limiter_or_new none = rate.new_limiter 5 20
  limiter_or_new (some lim) = lim

  -- the limiter that `getWriteLimiter` returns is the one the map holds
  unfoldable pub get_write_limiter : ℕ → ℕ → RateLimiter → RateLimiter × rate.Limiter
  unfolding lookup insert
  get_write_limiter now user rl =
      let lim = limiter_or_new (lookup user rl.writers) in
      (
        record { writers = insert user lim rl.writers; last_seen = insert user now rl.last_seen },
        lim,
      )

  -- `Allow` changes the limiter that the map points to
  unfoldable pub allow_write : ℕ → ℕ → RateLimiter → RateLimiter × Bool
  unfolding get_write_limiter
  allow_write now user rl =
      let (held, lim) = get_write_limiter now user rl in
      let (spent, ok) = rate.allow lim now in
      (record held { writers = insert user spent held.writers }, ok)

  abbrev pub limit_user : Option User → ℕ → Request → RateLimiter → RateLimiter × Verdict
  limit_user none now r rl = (rl, passed r)
  limit_user (some user) now r rl =
      let (after, ok) = allow_write now user.id rl in
      (after, if ok then passed r else answered (record { status = 429 }))

  unfoldable pub rate_limit_middleware : ℕ → Request → RateLimiter → RateLimiter × Verdict
  unfolding has_prefix is_state_changing allow_write
  rate_limit_middleware now r rl =
      if not (has_prefix r.path "/api/") || not (is_state_changing r.method)
      then (rl, passed r)
      else limit_user r.user now r rl
