-- ===== src/Alerts.antt =====
-- srv/alerts.go: news alerts.
pub mod Evaluate
pub mod Matched
pub mod Steps
