-- ===== src/Db.antt =====
-- db/dbgen: the tables of the SQLite database and the queries that the modelled components run.
pub mod Models
pub mod Calls
pub mod Rules
pub mod Joins
pub mod Articles
pub mod SeenGuids
pub mod Users
pub mod Alerts
pub mod AlertRows
pub mod Reading
pub mod Fetching
pub mod Queue
pub mod Counts
