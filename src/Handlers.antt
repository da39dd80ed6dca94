-- ===== src/Handlers.antt =====
-- srv/server.go: the handlers of the JSON interface. A handler gets the user that the middleware put
-- into the request, the parts of the request that it reads, and the server, and answers with a
-- status; the text of an answer is left out.
pub mod Articles
pub mod Counts
pub mod Rows
pub mod Isolation
pub mod Owners
pub mod Coherence
pub mod Alerts
pub mod Usable
pub mod AlertRuns
pub mod Settings
pub mod Stored
pub mod Unsettled
pub mod Partial
