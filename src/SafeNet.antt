-- ===== src/SafeNet.antt =====
-- srv/safenet/safenet.go: which addresses and URLs outbound requests may reach. Parsing of URLs and
-- of addresses, the resolver and the connection itself belong to Go's `net` and are `Net`.
pub mod Ranges
pub mod Client
pub mod Intervals
pub mod Laws
