-- ===== src/Http.antt =====
-- What the middleware and the handlers of srv/ see of a request, and what they answer.
use feedreader.Prelude.{ℕ, String, Bool, Option, ◌==◌, String_eq, ◌||◌}

-- srv/auth.go: `User`, the value that the context of a request carries
pub record User : Type 0 where
  pub id : ℕ
  pub external_id : String
  pub email : String

-- `http.Request`; `header` is `Header.Get`, the empty text where a header is absent; `body_limit` is
-- the limit of the reader that `http.MaxBytesReader` puts around the body
pub record Request : Type 0 where
  pub method : String
  pub path : String
  pub header : String → String
  pub user : Option User
  pub body_limit : Option ℕ

-- the text of an answer is left out
pub record Response : Type 0 where
  pub status : ℕ

-- A middleware writes an answer of its own or calls `next.ServeHTTP`.
pub data Verdict : Type 0 where
  answered : Response → Verdict
  passed : Request → Verdict

-- srv/csrf.go
unfoldable pub is_state_changing : String → Bool
is_state_changing method =
    ((method == "POST" || method == "PUT") || method == "DELETE") || method == "PATCH"
