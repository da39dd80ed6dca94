-- ===== src/Server.antt =====
-- srv/server.go: what the handlers and the background tasks of the server change.
use feedreader.Prelude.{Option}
use feedreader.Db.Models.{Database}
use feedreader.CountsCache.{CountsCache}

pub record Server : Type 0 where
  pub db : Database
  pub counts_cache : Option CountsCache
