-- ===== src/Retention.antt =====
-- srv/retention.go: the cleanup of old articles. `RetentionManager` reaches the database and the
-- counts cache through the server.
pub mod Cleanup
pub mod Recorded
pub mod Gone
pub mod Protected
pub mod Counting
