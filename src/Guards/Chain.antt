-- ===== src/Guards/Chain.antt =====
-- srv/server.go: the middleware that `Handler` wraps around the router, outermost first: bodyLimit,
-- auth, csrf, rateLimit. recover, gzip, logging and securityHeaders, which stand around these, pass
-- every request on and are left out.
use feedreader.Prelude.{ℕ, String, List, Option}
use feedreader.Http.{Request, Verdict, answered, passed}
use feedreader.Db.Users.{UpdateUserLastSeenParams}
use feedreader.Auth.Middleware.{Env, AuthState, auth_middleware}
use feedreader.Guards.Csrf.{csrf_middleware}
use feedreader.Guards.BodyLimit.{body_limit_middleware}
use feedreader.Guards.RateLimit.{Rate, RateLimiter, rate_limit_middleware}

pub record Clock : Type 0 where
  pub nanoseconds : ℕ
  pub seconds : ℕ

module _ (rate : Rate) where
  pub record Gate : Type 0 where
    pub auth : AuthState
    pub limiter : RateLimiter rate

  abbrev pub then_rate : ℕ → Verdict → RateLimiter rate → RateLimiter rate × Verdict
  then_rate now (answered a) rl = (rl, answered a)
  then_rate now (passed r) rl = rate_limit_middleware rate now r rl

  abbrev pub then_csrf : ℕ → Verdict → RateLimiter rate → RateLimiter rate × Verdict
  then_csrf now (answered a) rl = (rl, answered a)
  then_csrf now (passed r) rl = then_rate now (csrf_middleware r) rl

  -- what the router gets, or what is answered in its place
  unfoldable pub handler :
      List (String × ℕ)
      → Env
      → Clock
      → Request
      → Gate
      → Gate × Verdict × Option UpdateUserLastSeenParams
  unfolding csrf_middleware body_limit_middleware rate_limit_middleware auth_middleware
  handler order env now r g =
      let (auth, verdict, update) =
        auth_middleware env now.nanoseconds now.seconds (body_limit_middleware order r) g.auth in
      let (limiter, last) = then_csrf now.nanoseconds verdict g.limiter in
      (record { auth = auth; limiter = limiter }, last, update)
