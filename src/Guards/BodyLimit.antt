-- ===== src/Guards/BodyLimit.antt =====
-- srv/body_limit.go: `bodyLimitMiddleware`. The table of paths is a Go map, which the loop visits in
-- an order that Go does not fix: the order is an argument.
use feedreader.Prelude.{ℕ, String, some, List, [], ◌∷◌, ◌||◌, ◌==◌, String_eq, if◌then◌else◌}
use feedreader.Strings.{has_prefix}
use feedreader.Http.{Request}
use feedreader.Auth.Middleware.{newsletter_ingest_path}

-- 1 << 20
abbrev pub default_body_limit : ℕ
default_body_limit = 1048576

-- 10 << 20
abbrev pub upload_body_limit : ℕ
upload_body_limit = 10485760

-- srv/server.go
abbrev pub newsletter_ingest_max_body : ℕ
newsletter_ingest_max_body = 10485760

abbrev pub body_limit_paths : List (String × ℕ)
body_limit_paths =
    ("/api/opml/import", upload_body_limit)
    ∷ (newsletter_ingest_path, newsletter_ingest_max_body)
    ∷ []

-- the limit of the first entry whose path is a prefix
unfoldable pub limit_for : List (String × ℕ) → String → ℕ
limit_for [] path = default_body_limit
limit_for ((prefix, l) ∷ entries) path =
    let rest = limit_for entries path in if has_prefix path prefix then l else rest

unfoldable pub body_limit_middleware : List (String × ℕ) → Request → Request
unfolding limit_for
body_limit_middleware order r =
    if (r.method == "POST" || r.method == "PUT") || r.method == "PATCH"
    then record r { body_limit = some (limit_for order r.path) }
    else r
