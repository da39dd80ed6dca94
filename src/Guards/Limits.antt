-- ===== src/Guards/Limits.antt =====
-- srv/ratelimit.go: each user has a limiter of their own, and the cleanup takes the stale ones.
use feedreader.Prelude.{
  ℕ, ◌≡◌, refl, sym, ap, ◌∙◌, Bool, false, Option, none, some, [], ◌∷◌, nat_eq, nat_eq_iff,
  Bool-cases, ℕ_eq, inl, inr, arith, if◌then◌else◌, ltb, ◌-◌,
}
use feedreader.Prelude.Dict.{Dict, NodupKeys, lookup, delete, lookup-insert, lookup-delete}
use feedreader.Guards.RateLimit.{
  Rate, RateLimiter, allow_write, get_write_limiter, limiter_or_new, sweep, cleanup_tick,
}

-- whether the time under which a user was last seen, if any, is stale
abbrev pub is_stale_at : ℕ → Option ℕ → Bool
is_stale_at now none = false
is_stale_at now (some last) = ltb 1800000000000 (now - last)

module _ (rate : Rate) where
  sweep-writers :
      (now uid : ℕ) (seen : Dict ℕ ℕ) (rl : RateLimiter rate)
      → NodupKeys seen
      → lookup uid (sweep rate now seen rl).writers
        ≡ (if is_stale_at now (lookup uid seen) then none else lookup uid rl.writers)
  unfolding sweep lookup
  sweep-writers now uid [] rl u = refl
  sweep-writers now uid ((j, last) ∷ rest) rl (fresh, u) =
      let kept = sweep-writers now uid rest rl u in
      let taken =
        sweep-writers now uid rest
          (record { writers = delete j rl.writers; last_seen = delete j rl.last_seen }) u in
      elim (Bool-cases (nat_eq j uid)) [
        | inl e ↦
            let same : lookup uid rest ≡ none =
              ap (λ k. lookup k rest) (sym ((nat_eq_iff j uid).0 e)) ∙ fresh in
            ground (arith, kept, taken, lookup-delete uid j rl.writers)
        | inr e ↦ ground (arith, kept, taken, lookup-delete uid j rl.writers)
      ]

  -- After a tick of `cleanup`, over a map with one time for each user, a user's limiter is gone
  -- just if the user was last seen more than 30 minutes before; every other user's limiter is the
  -- one it was.
  pub cleanup_tick-writers :
      (now uid : ℕ) (rl : RateLimiter rate)
      → NodupKeys rl.last_seen
      → lookup uid (cleanup_tick rate now rl).writers
        ≡ (if is_stale_at now (lookup uid rl.last_seen) then none else lookup uid rl.writers)
  unfolding cleanup_tick
  cleanup_tick-writers now uid rl u = sweep-writers now uid rl.last_seen rl u

  -- A write spends from the user's own limiter, a new one of 5 a second and a burst of 20 where
  -- there was none; every other user's limiter is the one it was.
  allow_write-own :
      (now user other : ℕ) (rl : RateLimiter rate)
      → lookup other (allow_write rate now user rl).0.writers ≡ (
          if nat_eq user other
          then some (rate.allow (limiter_or_new rate (lookup user rl.writers)) now).0
          else lookup other rl.writers)
  unfolding allow_write get_write_limiter
  allow_write-own now user other rl = elim (Bool-cases (nat_eq user other)) [
    | inl e ↦ lookup-insert other user _ _ ∙ rw e refl
    | inr e ↦
        lookup-insert other user _ _ ∙ rw e (lookup-insert other user _ rl.writers ∙ rw e refl)
  ]
