-- ===== src/Fetcher.antt =====
-- srv/feeds/fetcher.go: how feeds are fetched, and how fetched items enter the database.
pub mod Store
pub mod Articles
pub mod Laws
pub mod Seen
pub mod World
pub mod Download
pub mod Fetch
pub mod Steps
pub mod Feeds
pub mod Schedule
pub mod Control
pub mod Hook
pub mod Playlist
