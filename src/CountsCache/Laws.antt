-- ===== src/CountsCache/Laws.antt =====
-- What a reader of the counts cache gets after the writers' operations.
use feedreader.Prelude.{
  ℕ, ◌≡◌, refl, ap, ◌∙◌, Bool, true, false, Option, none, some, ◌+◌, nat_eq, ltb, ℕ_eq, arith,
  if◌then◌else◌, List, [], ◌∷◌,
}
use feedreader.Prelude.Dict.{lookup, insert, delete, lookup-insert, lookup-delete}
use feedreader.CountsCache.{
  ArticleCounts, CountsCacheEntry, CountsCache, get, set, invalidate, invalidate_all, fresh,
}

-- Stored counts are read back by that user until they are older than the time to live, and then
-- no more; the other users read what they read before.
pub get-set :
    (c : CountsCache) (user reader : ℕ) (counts : ArticleCounts) (stored now : ℕ)
    → get (set (some c) user counts stored) reader now ≡ (
        if nat_eq user reader
        then (if ltb (stored + c.ttl) now then none else some counts)
        else get (some c) reader now)
unfolding get set
get-set c user reader counts stored now = rw lookup-insert (split (nat_eq user reader))
  where
    split :
        (b : Bool)
        → fresh
            (if b
              then some (record { counts = counts; cached_at = stored })
              else lookup reader c.entries)
            c.ttl
            now
          ≡ (if b
              then (if ltb (stored + c.ttl) now then none else some counts)
              else fresh (lookup reader c.entries) c.ttl now)
    split true = ground arith
    split false = refl

-- After an invalidation the user reads nothing, and the others read what they read before.
pub get-invalidate :
    (c : CountsCache) (user reader now : ℕ)
    → get (invalidate (some c) user) reader now
      ≡ (if nat_eq user reader then none else get (some c) reader now)
unfolding get invalidate
get-invalidate c user reader now = rw lookup-delete (split (nat_eq user reader))
  where
    split :
        (b : Bool)
        → fresh (if b then none else lookup reader c.entries) c.ttl now
          ≡ (if b then none else fresh (lookup reader c.entries) c.ttl now)
    split true = refl
    split false = refl

-- After a full invalidation nobody reads anything.
pub get-invalidate_all :
    (c : Option CountsCache) (reader now : ℕ) → get (invalidate_all c) reader now ≡ none
unfolding get invalidate_all lookup
get-invalidate_all none reader now = refl
get-invalidate_all (some c) reader now = refl

-- An operation of a writer on the cache, at a time.
pub data Op : Type 0 where
  set_op : ℕ → ArticleCounts → ℕ → Op
  invalidate_op : ℕ → Op
  invalidate_all_op : Op

abbrev pub apply : Op → Option CountsCache → Option CountsCache
apply (set_op user counts at) c = set c user counts at
apply (invalidate_op user) c = invalidate c user
apply invalidate_all_op c = invalidate_all c

-- the operations in the order of their lock acquisitions
abbrev pub run : List Op → Option CountsCache → Option CountsCache
run [] c = c
run (op ∷ ops) c = run ops (apply op c)

-- what the operations leave for one user: the counts stored last, if nothing dropped them since
abbrev pub last_write : ℕ → Option CountsCacheEntry → List Op → Option CountsCacheEntry
last_write user e [] = e
last_write user e (set_op u counts at ∷ ops) =
    last_write user (if nat_eq u user then some (record { counts = counts; cached_at = at }) else e)
      ops
last_write user e (invalidate_op u ∷ ops) = last_write user (if nat_eq u user then none else e) ops
last_write user e (invalidate_all_op ∷ ops) = last_write user none ops

-- After any sequence of operations a reader gets the counts that were stored last for that user,
-- unless they were dropped since or are older than the time to live.
pub get-run :
    (ops : List Op) (c : CountsCache) (user now : ℕ)
    → get (run ops (some c)) user now
      ≡ fresh (last_write user (lookup user c.entries) ops) c.ttl now
unfolding get set invalidate invalidate_all lookup
get-run [] c user now = refl
get-run (set_op u counts at ∷ ops) c user now =
    get-run ops
      (record c { entries = insert u (record { counts = counts; cached_at = at }) c.entries }) user
      now
    ∙ ap (λ e. fresh (last_write user e ops) c.ttl now) (lookup-insert user u _ c.entries)
get-run (invalidate_op u ∷ ops) c user now =
    get-run ops (record c { entries = delete u c.entries }) user now
    ∙ ap (λ e. fresh (last_write user e ops) c.ttl now) (lookup-delete user u c.entries)
get-run (invalidate_all_op ∷ ops) c user now = get-run ops (record c { entries = [] }) user now
