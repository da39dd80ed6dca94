-- ===== src/Auth.antt =====
-- srv/auth.go and srv/auth_*.go: who a request comes from.
pub mod Providers
pub mod Cache
pub mod Middleware
pub mod Bounds
pub mod Users
pub mod Cloudflare
pub mod Keys
pub mod LastSeen
