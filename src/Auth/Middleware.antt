-- ===== src/Auth/Middleware.antt =====
-- srv/auth.go: `AuthMiddleware`. A request is one step; the write of `last_seen_at` that it starts
-- in the background is handed out, and runs later.
use feedreader.Prelude.{ℕ, String, Bool, Option, none, some, ◌||◌, ◌==◌, String_eq, if◌then◌else◌}
use feedreader.Prelude.Dict.{insert}
use feedreader.Strings.{has_prefix}
use feedreader.Http.{User, Request, Verdict, answered, passed}
use feedreader.Db.Models.{Database}
use feedreader.Db.Models as Models
use feedreader.Db.Calls.{Faults, get_or_create_user_call}
use feedreader.Db.Users.{UpdateUserLastSeenParams, get_or_create_user}
use feedreader.Auth.Providers.{
  Identity, Authentication, AuthProvider, provider_error, anonymous, identified, dev_identity,
}
use feedreader.Auth.Cache.{CachedUser, UserCache, FirstKey, get, set, is_due}

abbrev pub newsletter_ingest_path : String
newsletter_ingest_path = "/api/newsletter/ingest"

pub record Env : Type 0 where
  pub provider : AuthProvider
  -- `os.Getenv("DEV") != ""`
  pub is_development : Bool
  pub first_key : FirstKey
  pub faults : Faults

pub record AuthState : Type 0 where
  pub cache : UserCache
  pub db : Database

abbrev pub Outcome : Type 0
Outcome = AuthState × Verdict × Option UpdateUserLastSeenParams

-- static files, the service worker and the newsletter webhook
unfoldable pub is_open : String → Bool
unfolding has_prefix
is_open path = (has_prefix path "/static" || path == "/sw.js") || path == newsletter_ingest_path

-- the development user stands in for a missing identity
abbrev pub fall_back : Bool → Authentication → Authentication
fall_back dev provider_error = provider_error
fall_back dev anonymous = if dev then identified dev_identity else anonymous
fall_back dev (identified id) = identified id

abbrev pub answer : ℕ → Verdict
answer status = answered (record { status = status })

abbrev pub with_user : User → Request → Verdict
with_user u r = passed (record r { user = some u })

-- the fast path, at the entry that the cache holds
abbrev pub serve_cached : Identity → CachedUser → ℕ → Request → AuthState → Outcome
serve_cached id cached now r s =
    if is_due cached.last_seen_unix_nano now
    then (
      record s {
        cache = record s.cache {
          entries =
              insert id.external_id (record cached { last_seen_unix_nano = now }) s.cache.entries;
        };
      },
      with_user cached.user r,
      some (record { email = id.email; id = cached.user.id }),
    )
    else (s, with_user cached.user r, none)

abbrev pub session_user : Models.User → User
session_user u = record { id = u.id; external_id = u.external_id; email = u.email }

-- the slow path; the clock of the database counts seconds
abbrev pub serve_stored : Env → Identity → ℕ → ℕ → Request → AuthState → Outcome
serve_stored env id now seconds r s =
    if env.faults (get_or_create_user_call id.external_id)
    then (s, answer 500, none)
    else (let (db, row) = get_or_create_user id.external_id id.email seconds s.db in
        (
          record {
            cache =
                set env.first_key id.external_id
                  (record { user = session_user row; last_seen_unix_nano = now }) s.cache;
            db = db;
          },
          with_user (session_user row) r,
          none,
        ))

abbrev pub serve_user : Option CachedUser → Env → Identity → ℕ → ℕ → Request → AuthState → Outcome
serve_user (some cached) env id now seconds r s = serve_cached id cached now r s
serve_user none env id now seconds r s = serve_stored env id now seconds r s

abbrev pub serve : Authentication → Env → ℕ → ℕ → Request → AuthState → Outcome
serve provider_error env now seconds r s = (s, answer 500, none)
serve anonymous env now seconds r s = (s, answer 401, none)
serve (identified id) env now seconds r s =
    serve_user (get s.cache id.external_id) env id now seconds r s

-- `now` is in nanoseconds
unfoldable pub auth_middleware : Env → ℕ → ℕ → Request → AuthState → Outcome
unfolding is_open get set get_or_create_user
auth_middleware env now seconds r s =
    if is_open r.path
    then (s, passed r, none)
    else serve (fall_back env.is_development (env.provider r)) env now seconds r s
