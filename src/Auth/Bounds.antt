-- ===== src/Auth/Bounds.antt =====
-- srv/auth.go: the size of the cache of users, and the race for the write of `last_seen_at`.
use feedreader.Prelude.{
  ℕ, String, ◌≡◌, refl, some, List, [], ◌∷◌, ◌<◌, ◌≤◌, leb, length, Option-cases, Bool-cases,
  String_eq, inl, inr, arith,
}
use feedreader.Prelude.Dict.{
  Dict, lookup, insert, delete, length-insert_new, length-insert_old, length-delete_lt,
}
use feedreader.Http.{Request}
use feedreader.Db.Models.{Database}
use feedreader.Db.Calls.{get_or_create_user_call}
use feedreader.Auth.Providers.{Identity, Authentication, provider_error, anonymous, identified}
use feedreader.Auth.Cache.{
  CachedUser, UserCache, FirstKey, get, set, len, new_user_cache, max_auth_cache_entries, is_due,
}
use feedreader.Auth.Middleware.{
  Env, AuthState, auth_middleware, is_open, serve, serve_cached, serve_stored, fall_back,
}

length-insert_le :
    (n : ℕ) (k : String) (u : CachedUser) (m : Dict String CachedUser)
    → length m < n
    → length (insert k u m) ≤ n
length-insert_le n k u m h = elim (Option-cases (lookup k m)) [
  | inl fresh ↦ ground (arith, length-insert_new k u m fresh)
  | inr (w, old) ↦ ground (arith, length-insert_old k u m old)
]

-- a full cache makes room before a new key goes in
pub set-len :
    (first : FirstKey) (key : String) (u : CachedUser) (c : UserCache)
    → 0 < c.max
    → len c ≤ c.max
    → len (set first key u c) ≤ c.max
unfolding set
set-len first key u c pos h = elim (Option-cases (lookup key c.entries)) [
  | inr (w, old) ↦ rw old (ground (arith, length-insert_old key u c.entries old))
  | inl fresh ↦ elim (Bool-cases (leb c.max (length c.entries))) [
    | inr room ↦ rw (fresh, room) (length-insert_le c.max key u c.entries (ground arith))
    | inl full ↦
        let (k, v, picked, there) = first.picks c.entries (ground arith) in
        rw (fresh, full, picked)
          (length-insert_le c.max key u (delete k c.entries)
            (ground (arith, length-delete_lt k c.entries there)))
  ]
]

abbrev Small : UserCache → Type 0
Small c = (c.max ≡ max_auth_cache_entries) × (len c ≤ max_auth_cache_entries)

set-Small :
    (first : FirstKey) (key : String) (u : CachedUser) (c : UserCache)
    → Small c
    → Small (set first key u c)
unfolding set
set-Small first key u c (m, h) =
    (m, ground (arith, set-len first key u c (omega (arith, m)) (omega (arith, m, h))))

cached-Small :
    (id : Identity) (cached : CachedUser) (now : ℕ) (r : Request) (s : AuthState)
    → get s.cache id.external_id ≡ some cached
    → Small s.cache
    → Small (serve_cached id cached now r s).0.cache
unfolding get
cached-Small id cached now r s there (m, h) =
    elim (Bool-cases (is_due cached.last_seen_unix_nano now)) [
      | inr late ↦ rw late (m, h)
      | inl due ↦ rw due (
        m,
        ground (
          arith,
          length-insert_old id.external_id (record cached { last_seen_unix_nano = now })
              s.cache.entries there,
        ),
      )
    ]

stored-Small :
    (env : Env) (id : Identity) (now seconds : ℕ) (r : Request) (s : AuthState)
    → Small s.cache
    → Small (serve_stored env id now seconds r s).0.cache
stored-Small env id now seconds r s h =
    elim (Bool-cases (env.faults (get_or_create_user_call id.external_id))) [
      | inl failed ↦ rw failed h
      | inr done ↦ rw done (set-Small env.first_key id.external_id _ s.cache h)
    ]

serve-Small :
    (a : Authentication) (env : Env) (now seconds : ℕ) (r : Request) (s : AuthState)
    → Small s.cache
    → Small (serve a env now seconds r s).0.cache
serve-Small provider_error env now seconds r s h = h
serve-Small anonymous env now seconds r s h = h
serve-Small (identified id) env now seconds r s h =
    elim (Option-cases (get s.cache id.external_id)) [
      | inl missing ↦ rw missing (stored-Small env id now seconds r s h)
      | inr (cached, there) ↦ rw there (cached-Small id cached now r s there h)
    ]

-- the requests that come in, each with the two clocks
abbrev pub serve_all : Env → List (ℕ × ℕ × Request) → AuthState → AuthState
serve_all env [] s = s
serve_all env ((now, seconds, r) ∷ rest) s =
    serve_all env rest (auth_middleware env now seconds r s).0

middleware-Small :
    (env : Env) (now seconds : ℕ) (r : Request) (s : AuthState)
    → Small s.cache
    → Small (auth_middleware env now seconds r s).0.cache
unfolding auth_middleware
middleware-Small env now seconds r s h = elim (Bool-cases (is_open r.path)) [
  | inl e ↦ rw e h
  | inr e ↦ rw e (serve-Small (fall_back env.is_development (env.provider r)) env now seconds r s h)
]

serve_all-Small :
    (env : Env) (requests : List (ℕ × ℕ × Request)) (s : AuthState)
    → Small s.cache
    → Small (serve_all env requests s).cache
serve_all-Small env [] s h = h
serve_all-Small env ((now, seconds, r) ∷ rest) s h =
    serve_all-Small env rest _ (middleware-Small env now seconds r s h)

-- Whatever requests come in, with whatever identities, and whichever entry an eviction takes: a
-- cache that starts empty never holds more than `max_auth_cache_entries` users.
pub serve_all-len :
    (env : Env) (requests : List (ℕ × ℕ × Request)) (db : Database)
    → len
        (serve_all env requests
          (record { cache = new_user_cache max_auth_cache_entries; db = db })).cache
      ≤ max_auth_cache_entries
unfolding new_user_cache
serve_all-len env requests db = (serve_all-Small env requests _ (refl, omega arith)).1
