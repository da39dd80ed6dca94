-- ===== src/Lib.antt =====
-- The feed reader server: what its parts keep, and what is proved of them.
--
-- The program (paths from the repository's root) is one Go server over a SQLite database. A fetcher
-- (srv/feeds) stores the items of feeds as articles; filters (srv/filter.go) hide articles by rules
-- on categories, or mark them read; retention (srv/retention.go) deletes old articles and records
-- their guids, so that the fetcher does not store them again, and empties the cache of counts
-- (srv/counts_cache.go). Requests pass a chain of middleware (srv/server.go `Handler`): the limit of
-- the body (srv/body_limit.go), authentication by a provider and a cache of users (srv/auth.go,
-- srv/auth_*.go), the CSRF check (srv/csrf.go) and the rate limit (srv/ratelimit.go). Outbound
-- requests go through srv/safenet. Subscriptions are read and written as OPML (srv/opml). News alerts
-- (srv/alerts.go) note the unread articles of a feed that match. A configuration file and flags
-- choose the provider (config, cmd/srv). Handlers (srv/server.go) mark, star and queue articles for
-- a user, count them and store settings; a fetch ends in a hook of the server, which runs the
-- filters and the alerts on the feed and drops the counts of its owner. Playlists are read by the client of srv/youtube.
--
-- Files:
--   Prelude, Prelude/*   tests, lists, maps (`Dict`, an association list), sorting, integers
--   Strings, Strings/*   prefixes, substrings, lower case, `strconv.Atoi`
--   Http                 requests, answers, and what a middleware does with them
--   Db/Models            db/dbgen/models.go; the database is a record of tables
--   Db/Calls             the query methods, and which of them return an error in a run
--   Db/Rules, Joins, Articles, SeenGuids, Users, Alerts, AlertRows, Reading,
--   Queue, Counts, Fetching
--                        the queries of db/dbgen/*.sql.go that the parts below call
--   Filter/*             srv/filter.go: Rules, Lists and Marking are the code; Exact, Marked,
--                        MarkedExact and MarkedFeed compare it with the tables; Steps is on what
--                        a step keeps
--   CountsCache, /Laws   srv/counts_cache.go
--   Server               srv/server.go: what handlers and background tasks change
--   Handlers/*           srv/server.go: Articles, Counts, Alerts and Settings are the code; Rows
--                        and Isolation are on the rows of other users, Owners, Unsettled and
--                        Coherence on the counts, Usable and AlertRuns on the alerts, Stored and
--                        Partial on the settings
--   Youtube/*            srv/youtube/youtube.go: Client is the code
--   Fetcher/*            srv/feeds/fetcher.go: Store is the code of `storeItems`, World what the
--                        fetcher calls, Download the ways to get items, Fetch is `FetchFeed`,
--                        `FetchAll` and the hook of the server, Control is `Start` and `Stop`
--   Retention/*          srv/retention.go: Cleanup is the code
--   Auth/*               srv/auth.go and srv/auth_*.go: Providers, Cache, Middleware and Cloudflare
--                        are the code; LastSeen is on requests that race to write the last time
--   Guards/*             srv/csrf.go, body_limit.go, ratelimit.go, and the order of `Handler` (Chain)
--   SafeNet/*            srv/safenet/safenet.go: Ranges and Client are the code
--   Opml/*               srv/opml/opml.go: Outlines is the code
--   Alerts/*             srv/alerts.go: Evaluate is the code
--   CategoryTree/*       srv/category_tree.go: Nodes is the code
--   Config/*             config/config.go, cmd/srv/main.go, cmd/srv/init.go: Settings is the code
--   Tests/*              concrete databases and requests
--
-- Conventions. A function that changes the database takes and returns it; a query is a function on
-- the tables, and `Faults` says which calls return an error, so that every error branch of the code
-- is a branch of the model. A Go map is an association list; where what the code does may hang on
-- the order in which it ranges over a map, that order is an argument. A time is a number, in the
-- unit of the clock that the code reads. A nil pointer is `none`. The loops are structural
-- recursions; only the loop over the pages of a playlist, which an endless service keeps going, has
-- fuel, and fuel for one round a page is enough, and the tree of categories is grown down to a
-- number of levels, of which any that no category lies below is enough. Ids and counters are natural numbers; the product `days*2` is 64
-- bits wide, and its overflow is written out. The text of a number of days passes through SQL
-- unchanged.
--
-- Parameters, for code that is not in the repository: lower case of a rune and regular expressions
-- (`TextTools`), the token bucket of golang.org/x/time/rate (`Rate`), Go's net package (`Net`),
-- tokens and keys (`Tokens`), `strings.EqualFold` (an argument in Config), and the orders in which Go
-- visits maps (`FirstKey`, `MapOrder`), HTTP, gzip, JSON and formatting (`Net` of Youtube, `World`).
-- Three functions of `World` stand for code of the repository that has no model: the parser of XML
-- feeds (srv/feeds/parser.go) and the scraper scripts and the client of srv/huggingface.
--
-- Not modelled: pages and templates, the other handlers, JSON, XML and MIME decoding, the
-- client of srv/huggingface, sanitizing of HTML, log lines, migrations, what two fetches do to the
-- database at the same time, and the goroutines that tick, but for the loop of the fetcher. The
-- middleware for recovery, compression, logging and security headers passes every request on.
pub mod Prelude
pub mod Strings
pub mod Http
pub mod Db
pub mod Filter
pub mod CountsCache
pub mod Server
pub mod Handlers
pub mod Retention
pub mod Youtube
pub mod Fetcher
pub mod Auth
pub mod Guards
pub mod SafeNet
pub mod Opml
pub mod Alerts
pub mod CategoryTree
pub mod Config
pub mod Tests
