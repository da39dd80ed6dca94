-- ===== src/Youtube.antt =====
-- srv/youtube/youtube.go: the client of the YouTube Data API.
pub mod Client
pub mod Pages
