-- ===== src/Filter.antt =====
-- srv/filter.go: exclusion rules over articles.
pub mod Rules
pub mod Lists
pub mod Exact
pub mod Marking
pub mod Marked
pub mod Steps
pub mod MarkedExact
pub mod MarkedFeed
