-- ===== src/Auth/LastSeen.antt =====
-- srv/auth.go `AuthMiddleware`: requests of one cached user that race to write `last_seen_at`. Each
-- loads the atomic time, reads the clock, and swaps the time if a write is due; the steps of
-- different requests come in any order.
use feedreader.Prelude.{ℕ, ◌≡◌, List, [], ◌∷◌, ◌++◌, nat_eq, ◌+◌, ◌<◌, ◌&&◌, if◌then◌else◌}
use feedreader.Auth.Cache.{minute, is_due}

-- the atomic time, the values that requests under way have loaded, and the times at which a write
-- was started, the latest first, down to the time that the cache entry came with
pub record LastSeen : Type 0 where
  pub cell : ℕ
  pub loaded : List ℕ
  pub writes : List ℕ

abbrev pub cached_at : ℕ → LastSeen
cached_at time = record { cell = time; loaded = []; writes = time ∷ [] }

-- the condition with its `CompareAndSwap`, and the write that it guards
unfoldable pub swap_last_seen : ℕ → ℕ → LastSeen → LastSeen
swap_last_seen prev now s =
    if is_due prev now && nat_eq s.cell prev
    then record s { cell = now; writes = now ∷ s.writes }
    else s

pub data Race (s : LastSeen) : LastSeen → Type 0 where
  load : Race s (record s { loaded = s.cell ∷ s.loaded })
  finish :
      (prev now : ℕ) (xs ys : List ℕ)
      → s.loaded ≡ xs ++ prev ∷ ys
      → Race s (swap_last_seen prev now (record s { loaded = xs ++ ys }))

pub data Races (s : LastSeen) : LastSeen → Type 0 where
  start : Races s s
  then_race : {t u : LastSeen} → Races s t → Race t u → Races s u

-- each time is more than a minute after the one before it
abbrev pub Spaced : List ℕ → Type 0
Spaced [] = Unit {0}
Spaced (a ∷ []) = Unit {0}
Spaced (a ∷ b ∷ rest) = (b + minute < a) × Spaced (b ∷ rest)

-- the atomic time is the one of the latest write
abbrev Latest : ℕ → List ℕ → Type 0
Latest cell [] = Unit {0}
Latest cell (a ∷ rest) = a ≡ cell

abbrev IsSpaced : LastSeen → Type 0
IsSpaced s = Latest s.cell s.writes × Spaced s.writes
