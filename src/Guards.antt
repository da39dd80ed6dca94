-- ===== src/Guards.antt =====
-- The middleware around the router: srv/csrf.go, body_limit.go, ratelimit.go, and their order in
-- `Server.Handler` of srv/server.go.
pub mod Csrf
pub mod BodyLimit
pub mod RateLimit
pub mod Chain
pub mod Laws
pub mod Limits
pub mod Webhook
