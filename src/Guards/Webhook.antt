-- ===== src/Guards/Webhook.antt =====
-- srv/server.go `Handler`: what becomes of a request to the newsletter webhook before the router.
use feedreader.Prelude.{
  String, ◌≡◌, refl, Bool-cases, some, none, inl, inr, ◌==◌, String_eq, if◌then◌else◌,
}
use feedreader.Strings.{has_prefix}
use feedreader.Http.{Request, answered, passed, is_state_changing}
use feedreader.Auth.Middleware.{Env, auth_middleware, is_open, newsletter_ingest_path}
use feedreader.Guards.Csrf.{csrf_middleware}
use feedreader.Guards.BodyLimit.{
  body_limit_middleware, body_limit_paths, limit_for, newsletter_ingest_max_body,
}
use feedreader.Guards.RateLimit.{Rate, rate_limit_middleware}
use feedreader.Guards.Chain.{Clock, Gate, handler}

-- a POST to the webhook with some headers
abbrev pub webhook_request : (String → String) → Request
webhook_request header = record {
  method = "POST";
  path = newsletter_ingest_path;
  header = header;
  user = none;
  body_limit = none;
}

-- A POST to the newsletter webhook needs no identity, but without the X-Requested-With header it is
-- answered with 403 whatever its other headers are, the Authorization header too; with it, it
-- reaches the router under the limit of 10 MB.
pub handler-webhook :
    (rate : Rate) (env : Env) (now : Clock) (header : String → String) (g : Gate rate)
    → (handler rate body_limit_paths env now (webhook_request header) g).1 ≡ (
        if header "X-Requested-With" == ""
        then answered (record { status = 403 })
        else passed
            (record (webhook_request header) { body_limit = some newsletter_ingest_max_body }))
unfolding handler auth_middleware is_open has_prefix body_limit_middleware limit_for csrf_middleware
    is_state_changing rate_limit_middleware
handler-webhook rate env now header g = elim (Bool-cases (header "X-Requested-With" == "")) [
  | inl missing ↦ rw missing refl
  | inr there ↦ rw there refl
]
