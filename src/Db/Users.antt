-- ===== src/Db/Users.antt =====
-- db/dbgen/users.sql.go: the users that have signed in.
use feedreader.Prelude.{
  ℕ, String, Option, none, some, List, [], ◌∷◌, ◌++◌, map, nat_eq, ◌+◌, ◌==◌, String_eq,
  if◌then◌else◌,
}
use feedreader.Db.Models.{Database, User}

pub record UpdateUserLastSeenParams : Type 0 where
  pub email : String
  pub id : ℕ

abbrev pub find_user : String → List User → Option User
find_user key [] = none
find_user key (u ∷ users) =
    let later = find_user key users in if u.external_id == key then some u else later

abbrev pub touch : String → String → ℕ → User → User
touch key email now u =
    if u.external_id == key then record u { email = email; last_seen_at = now } else u

abbrev pub new_user : ℕ → String → String → ℕ → User
new_user id key email now = record {
  id = id;
  external_id = key;
  email = email;
  created_at = now;
  last_seen_at = now;
}

abbrev upsert_user : Option User → String → String → ℕ → Database → Database × User
upsert_user none key email now db =
    let u = new_user db.next_user_id key email now in
    (record db { users = db.users ++ u ∷ []; next_user_id = db.next_user_id + 1 }, u)
upsert_user (some u) key email now db = (
  record db { users = map (touch key email now) db.users },
  record u { email = email; last_seen_at = now },
)

-- INSERT … ON CONFLICT(external_id) DO UPDATE … RETURNING
unfoldable pub get_or_create_user : String → String → ℕ → Database → Database × User
get_or_create_user key email now db = upsert_user (find_user key db.users) key email now db

unfoldable pub update_user_last_seen : UpdateUserLastSeenParams → ℕ → Database → Database
update_user_last_seen p now db = record db {
  users =
      map (λ u. if nat_eq u.id p.id then record u { email = p.email; last_seen_at = now } else u)
        db.users;
}
