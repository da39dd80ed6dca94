-- ===== src/Auth/Users.antt =====
-- srv/auth.go: the user that a request carries past `AuthMiddleware`.
use feedreader.Prelude.{
  ℕ, String, ◌≡◌, ◌⊎◌, refl, sym, ap, ◌∙◌, Bool, true, false, Option, none, some, List, [], ◌∷◌,
  map, nat_eq, any, any-append, Option-cases, Bool-cases, ◌&&◌, ◌||◌, ◌==◌, String_eq, inl, inr,
  arith, if◌then◌else◌,
}
use text.Mathlib.TextEquality.{eq_iff}
use feedreader.Prelude.Dict.{Dict, lookup, insert, lookup-insert, lookup-delete}
use feedreader.Http.{User, Request, Verdict}
use feedreader.Db.Models.{Database}
use feedreader.Db.Models as Models
use feedreader.Db.Calls.{get_or_create_user_call}
use feedreader.Db.Users.{get_or_create_user, find_user, touch}
use feedreader.Auth.Providers.{Identity, identified}
use feedreader.Auth.Cache.{CachedUser, UserCache, FirstKey, get, set, is_due, evict}
use feedreader.Auth.Middleware.{
  Env, AuthState, auth_middleware, is_open, serve, serve_cached, serve_stored, fall_back,
  session_user, with_user,
}

-- some row of the table has the user's number and external ID
abbrev pub is_row : Database → User → Bool
is_row db u = any (λ (r : Models.User). nat_eq r.id u.id && r.external_id == u.external_id) db.users

-- every entry of the cache is a row of the table, under its external ID
abbrev pub Known : AuthState → Type 0
Known s =
    (k : String) (c : CachedUser)
    → lookup k s.cache.entries ≡ some c
    → (c.user.external_id ≡ k) × (is_row s.db c.user ≡ true)

some_injective {ℓ} : {A : Type ℓ} {a b : A} → some a ≡ some b → a ≡ b
some_injective {a} h = ap (λ o. elim o [ none ↦ a | some x ↦ x ]) h

find_user-row :
    (key : String) (users : List Models.User) (row : Models.User)
    → find_user key users ≡ some row
    → (row.external_id ≡ key)
      × (any (λ (r : Models.User). nat_eq r.id row.id && r.external_id == key) users ≡ true)
find_user-row key [] row h = absurd (cc)
find_user-row key (u ∷ users) row h = elim (Bool-cases (u.external_id == key)) [
  | inl mine ↦
      let e : u ≡ row = some_injective (rw mine at h) in
      (
        ap (λ (r : Models.User). r.external_id) (sym e) ∙ (eq_iff u.external_id key).0 mine,
        ground (arith, ap (λ (r : Models.User). r.id) e),
      )
  | inr other ↦ let (k, m) = find_user-row key users row (rw other at h) in (k, ground arith)
]

any-touch :
    (key email : String) (now : ℕ) (u : User) (users : List Models.User)
    → any
        (λ (r : Models.User). nat_eq r.id u.id && r.external_id == u.external_id)
        (map (touch key email now) users)
      ≡ any (λ (r : Models.User). nat_eq r.id u.id && r.external_id == u.external_id) users
any-touch key email now u [] = refl
any-touch key email now u (r ∷ users) = elim (Bool-cases (r.external_id == key)) [
  | inl mine ↦ rw mine (
      ap (λ b. (nat_eq r.id u.id && r.external_id == u.external_id) || b)
        (any-touch key email now u users))
  | inr other ↦ rw other (
      ap (λ b. (nat_eq r.id u.id && r.external_id == u.external_id) || b)
        (any-touch key email now u users))
]

-- the row that comes back is the external ID's, and in the table
created :
    (key email : String) (now : ℕ) (db : Database)
    → ((get_or_create_user key email now db).1.external_id ≡ key)
      × (is_row
            (get_or_create_user key email now db).0
            (session_user (get_or_create_user key email now db).1)
          ≡ true)
unfolding get_or_create_user
created key email now db = elim (Option-cases (find_user key db.users)) [
  | inl missing ↦ rw missing (refl, any-append _ db.users _ ∙ ground (arith, eq_iff key key))
  | inr (row, found) ↦
      let (k, m) = find_user-row key db.users row found in
      rw found (
        k,
        any-touch key email now (session_user row) db.users
            ∙ ap (λ n. any (λ (r : Models.User). nat_eq r.id row.id && r.external_id == n) db.users)
                k
            ∙ m,
      )
]

-- no row loses its number or its external ID
rows_stay :
    (key email : String) (now : ℕ) (db : Database) (u : User)
    → is_row db u ≡ true
    → is_row (get_or_create_user key email now db).0 u ≡ true
unfolding get_or_create_user
rows_stay key email now db u h = elim (Option-cases (find_user key db.users)) [
  | inl missing ↦ rw missing (any-append _ db.users _ ∙ ground arith)
  | inr (row, found) ↦ rw found (any-touch key email now u db.users ∙ h)
]

inserted_here :
    (key k : String) (u c : CachedUser) (m : Dict String CachedUser)
    → (key == k) ≡ true
    → lookup k (insert key u m) ≡ some c
    → u ≡ c
inserted_here key k u c m e h =
    let here : lookup k (insert key u m) ≡ some u = lookup-insert k key u m ∙ rw e refl in
    some_injective (sym here ∙ h)

inserted_elsewhere :
    (key k : String) (u c : CachedUser) (m : Dict String CachedUser)
    → (key == k) ≡ false
    → lookup k (insert key u m) ≡ some c
    → lookup k m ≡ some c
inserted_elsewhere key k u c m e h =
    let there : lookup k (insert key u m) ≡ lookup k m = lookup-insert k key u m ∙ rw e refl in
    sym there ∙ h

still_there :
    (k : String) (c : CachedUser) (full : Bool) (o : Option String) (m : Dict String CachedUser)
    → lookup k (if full then evict o m else m) ≡ some c
    → lookup k m ≡ some c
still_there k c false o m h = h
still_there k c true none m h = h
still_there k c true (some j) m h = elim (Bool-cases (j == k)) [
  | inl e ↦ absurd (ground (arith, lookup-delete k j m))
  | inr e ↦ ground (arith, lookup-delete k j m)
]

-- the entries of a cache after `set` are the new one and some of the old ones
set-entries :
    (first : FirstKey) (key k : String) (u c : CachedUser) (cache : UserCache)
    → lookup k (set first key u cache).entries ≡ some c
    → ((key ≡ k) × (u ≡ c)) ⊎ (lookup k cache.entries ≡ some c)
unfolding set
set-entries first key k u c cache h = elim (Bool-cases (key == k)) [
  | inl e ↦ inl ((eq_iff key k).0 e, inserted_here key k u c _ e h)
  | inr e ↦ inr (still_there k c _ _ cache.entries (inserted_elsewhere key k u c _ e h))
]

cached-Known :
    (id : Identity) (cached : CachedUser) (now : ℕ) (r : Request) (s : AuthState)
    → lookup id.external_id s.cache.entries ≡ some cached
    → Known s
    → Known (serve_cached id cached now r s).0
cached-Known id cached now r s there known k c =
    elim (Bool-cases (is_due cached.last_seen_unix_nano now)) [
      | inr late ↦ rw late (known k c)
      | inl due ↦ rw due (λ h. elim (Bool-cases (id.external_id == k)) [
        | inl e ↦
            let same =
              inserted_here id.external_id k (record cached { last_seen_unix_nano = now }) c
                s.cache.entries e h in
            let (ext, row) = known id.external_id cached there in
            (
              ap (λ (d : CachedUser). d.user.external_id) (sym same)
                  ∙ ext
                  ∙ (eq_iff id.external_id k).0 e,
              ap (λ (d : CachedUser). is_row s.db d.user) (sym same) ∙ row,
            )
        | inr e ↦ known k c (
            inserted_elsewhere id.external_id k (record cached { last_seen_unix_nano = now }) c
              s.cache.entries e h)
      ])
    ]

-- what `AuthMiddleware` promises of an identified request: the user it carries on, and the state
abbrev pub Identified : Identity → Request → AuthState × Verdict → Type 0
Identified id r (s, v) =
    (u : User) × (v ≡ with_user u r)
    × (u.external_id ≡ id.external_id)
    × (is_row s.db u ≡ true)
    × Known s

pub stored-Identified :
    (env : Env) (id : Identity) (now seconds : ℕ) (r : Request) (s : AuthState)
    → Known s
    → env.faults (get_or_create_user_call id.external_id) ≡ false
    → Identified id r
        ((serve_stored env id now seconds r s).0, (serve_stored env id now seconds r s).1)
stored-Identified env id now seconds r s known ok =
    let row = (get_or_create_user id.external_id id.email seconds s.db).1 in
    let (ext, there) = created id.external_id id.email seconds s.db in
    rw ok (
      session_user row,
      refl,
      ext,
      there,
      λ k c h.
          elim (set-entries env.first_key id.external_id k
            (record { user = session_user row; last_seen_unix_nano = now }) c s.cache h) [
              | inl (key, new) ↦ (
                ap (λ (d : CachedUser). d.user.external_id) (sym new) ∙ ext ∙ key,
                ap
                      (λ (d : CachedUser).
                        is_row (get_or_create_user id.external_id id.email seconds s.db).0 d.user)
                      (sym new)
                    ∙ there,
              )
              | inr old ↦
                  let (e, m) = known k c old in
                  (e, rows_stay id.external_id id.email seconds s.db c.user m)
            ],
    )

pub cached-Identified :
    (id : Identity) (cached : CachedUser) (now : ℕ) (r : Request) (s : AuthState)
    → lookup id.external_id s.cache.entries ≡ some cached
    → Known s
    → Identified id r ((serve_cached id cached now r s).0, (serve_cached id cached now r s).1)
cached-Identified id cached now r s there known =
    let (ext, row) = known id.external_id cached there in
    elim (Bool-cases (is_due cached.last_seen_unix_nano now)) [
      | inr late ↦ rw late (cached.user, refl, ext, row, known)
      | inl due ↦
          (cached.user, rw due refl, ext, rw due row, cached-Known id cached now r s there known)
    ]

serve-Identified :
    (env : Env) (id : Identity) (now seconds : ℕ) (r : Request) (s : AuthState)
    → Known s
    → env.faults (get_or_create_user_call id.external_id) ≡ false
    → Identified id r (
      (serve (identified id) env now seconds r s).0,
      (serve (identified id) env now seconds r s).1,
    )
unfolding get
serve-Identified env id now seconds r s known ok =
    elim (Option-cases (lookup id.external_id s.cache.entries)) [
      | inl missing ↦ rw missing (stored-Identified env id now seconds r s known ok)
      | inr (cached, there) ↦ rw there (cached-Identified id cached now r s there known)
    ]

-- While every entry of the cache is a row of the table, under its external ID, an identified
-- request to a path that needs authentication is passed on with a user whose external ID is the
-- identity's and who is a row of the table, served from the cache or from the database, when the
-- statement on the users does not fail; the entries of the cache stay rows of the table.
pub auth_middleware-Identified :
    (env : Env) (id : Identity) (now seconds : ℕ) (r : Request) (s : AuthState)
    → Known s
    → is_open r.path ≡ false
    → fall_back env.is_development (env.provider r) ≡ identified id
    → env.faults (get_or_create_user_call id.external_id) ≡ false
    → Identified id r
        ((auth_middleware env now seconds r s).0, (auth_middleware env now seconds r s).1)
unfolding auth_middleware
auth_middleware-Identified env id now seconds r s known closed e ok =
    rw (closed, e) (serve-Identified env id now seconds r s known ok)
