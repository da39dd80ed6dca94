-- ===== src/Tests/Requests.antt =====
-- The properties of requests in and out, and of OPML, at concrete values.
use mathlib.Core.List.{Memᴰ}
use text.Mathlib.TextEquality.{eq_iff}
use feedreader.Prelude.{
  ℕ, String, ◌≡◌, refl, true, false, Option, none, some, List, [], ◌∷◌, ◌<◌, ◌≤◌, ◌+◌, ◌*◌, ◌^◌,
  any, all, keep, map, length, ltb, ◌-◌, ◌==◌, String_eq, ℕ_eq, if◌then◌else◌, arith,
}
use feedreader.Prelude.Dict.{Dict, lookup}
use feedreader.Strings.{has_prefix, to_lower}
use feedreader.Guards.Webhook.{webhook_request, handler-webhook}
use feedreader.Http.{answered, passed, User, Request}
use feedreader.Auth.Providers.{Identity, identified, tailscale_provider, identify}
use feedreader.Auth.Cache.{CachedUser, new_user_cache, len, max_auth_cache_entries}
use feedreader.Auth.Middleware.{Env, AuthState, auth_middleware, fall_back, is_open}
use feedreader.Auth.Bounds.{serve_all, serve_all-len}
use feedreader.Auth.LastSeen.{LastSeen}
use feedreader.Auth.Users.{Known, Identified, auth_middleware-Identified}
use feedreader.Guards.BodyLimit.{
  body_limit_paths, body_limit_middleware, default_body_limit, newsletter_ingest_max_body,
}
use feedreader.Guards.RateLimit.{Rate, RateLimiter, cleanup_tick}
use feedreader.Guards.Chain.{Clock, Gate, handler}
use feedreader.Guards.Laws.{handler-guarded, has_csrf_header}
use feedreader.Guards.Limits.{is_stale_at, cleanup_tick-writers}
use feedreader.SafeNet.Ranges.{Ip, v4, v6, is_private_ip}
use feedreader.SafeNet.Intervals.{
  quad, is_between, blocked_intervals, is_private_ip-intervals, is_private_ip-mapped,
}
use feedreader.SafeNet.Client.{Net, validate_url, dial_context, follow}
use feedreader.SafeNet.Laws.{dial_context-safe, follow-safe, is_valid_url}
use feedreader.Opml.Outlines.{Feed, ExportFeed, MapOrder, parse_body, export_body}
use feedreader.Opml.Roundtrip.{filed}
use feedreader.Opml.Grouping.{parse_body-export_body}
use feedreader.Tests.Sample.{plain_tools, no_faults, sample_db}

abbrev first_pick : Dict String CachedUser → Option String
first_pick [] = none
first_pick ((k, u) ∷ m) = some k

first_picks :
    (m : Dict String CachedUser)
    → 0 < length m
    → (k : String) × (u : CachedUser) × (first_pick m ≡ some k) × (lookup k m ≡ some u)
unfolding lookup
first_picks [] h = absurd (omega arith)
first_picks ((k, u) ∷ m) h = (k, u, refl, ground (arith, eq_iff k k))

abbrev env : Env
env = record {
  provider = tailscale_provider;
  is_development = false;
  first_key = record { pick = first_pick; picks = first_picks };
  faults = no_faults;
}

-- every header has the text "ann"
abbrev post : Request
post = record {
  method = "POST";
  path = "/api/feeds";
  header = λ name. "ann";
  user = none;
  body_limit = none;
}

abbrev started : AuthState
started = record { cache = new_user_cache max_auth_cache_entries; db = sample_db }

started-Known : Known started
unfolding new_user_cache lookup
started-Known k c h = absurd (cc)

abbrev ann : Identity
ann = record { external_id = "ann"; email = "ann" }

auth_middleware-Identified_example :
    Identified ann post
      ((auth_middleware env 5 6 post started).0, (auth_middleware env 5 6 post started).1)
unfolding is_open has_prefix tailscale_provider identify
auth_middleware-Identified_example =
    auth_middleware-Identified env ann 5 6 post started started-Known refl refl refl

serve_all-len_example :
    len
      (serve_all env
        ((5, 6, post) ∷ (7, 8, post) ∷ [])
        (record { cache = new_user_cache max_auth_cache_entries; db = sample_db })).cache
    ≤ max_auth_cache_entries
serve_all-len_example = serve_all-len env ((5, 6, post) ∷ (7, 8, post) ∷ []) sample_db

-- two requests load the time of the entry, and both find a write due
abbrev two_loaded : LastSeen
two_loaded = record { cell = 1; loaded = 1 ∷ 1 ∷ []; writes = 1 ∷ [] }

-- a limiter that counts down from its burst
abbrev countdown : Rate
countdown = record {
  Limiter = ℕ;
  new_limiter = λ limit burst. burst;
  allow = λ left now. (left - 1, ltb 0 left);
}

abbrev gate : Gate countdown
gate = record { auth = started; limiter = record { writers = []; last_seen = [] } }

abbrev clock : Clock
clock = record { nanoseconds = 5; seconds = 6 }

-- the request as the router gets it
abbrev reached : Request
reached = record {
  method = "POST";
  path = "/api/feeds";
  header = λ name. "ann";
  user = some (record { id = 1; external_id = "ann"; email = "ann" });
  body_limit = some default_body_limit;
}

handler-guarded_example :
    (id : Identity) × (u : User) × (fall_back env.is_development
        (env.provider (body_limit_middleware body_limit_paths post))
      ≡ identified id)
    × (reached.user ≡ some u)
    × (u.external_id ≡ id.external_id)
    × (has_csrf_header post ≡ true)
unfolding handler is_open has_prefix tailscale_provider identify new_user_cache
handler-guarded_example =
    handler-guarded countdown body_limit_paths env clock post reached gate started-Known refl refl

-- user 1 was seen at the start, user 2 an hour later
abbrev limiters : RateLimiter countdown
limiters = record { writers = (1, 20) ∷ (2, 20) ∷ []; last_seen = (1, 0) ∷ (2, 3600000000000) ∷ [] }

cleanup_tick-writers_example : lookup 1 (cleanup_tick countdown 3600000000001 limiters).writers ≡ (
    if is_stale_at 3600000000001 (lookup 1 limiters.last_seen)
    then none
    else lookup 1 limiters.writers)
unfolding lookup
cleanup_tick-writers_example =
    cleanup_tick-writers countdown 3600000000001 1 limiters (refl, (refl, tt))

is_private_ip-intervals_example :
    is_private_ip (v4 (quad 172 20 0 1)) ≡ any (is_between (quad 172 20 0 1)) blocked_intervals
is_private_ip-intervals_example = is_private_ip-intervals (quad 172 20 0 1)

is_private_ip-mapped_example :
    is_private_ip (v6 (65535 * 2 ^ 32 + quad 127 0 0 1)) ≡ is_private_ip (v4 (quad 127 0 0 1))
is_private_ip-mapped_example = is_private_ip-mapped (quad 127 0 0 1) (omega arith)

-- one host with one public address, and URLs whose host is that host
abbrev small_net : Net
small_net = record {
  parse_url = λ raw. some (record { scheme = "https"; hostname = "example.org" });
  parse_ip = λ host. none;
  split_host_port = λ addr. some ("example.org", "443");
  lookup_ip_addr = λ host. some (v4 (quad 93 184 216 34) ∷ []);
}

dial_context-safe_example :
    (host : String) × (port : String) × (ips : List Ip) × (small_net.split_host_port
        "example.org:443"
      ≡ some (host, port))
    × (small_net.lookup_ip_addr host ≡ some ips)
    × Memᴰ (v4 (quad 93 184 216 34)) ips
    × (any is_private_ip ips ≡ false)
unfolding dial_context
dial_context-safe_example =
    dial_context-safe plain_tools small_net "example.org:443" (v4 (quad 93 184 216 34)) refl

follow-safe_example :
    (length (follow plain_tools small_net 2 ("b" ∷ "c" ∷ "d" ∷ []) ("a" ∷ [])) ≤ 2)
    × (all
          (is_valid_url plain_tools small_net)
          (follow plain_tools small_net 2 ("b" ∷ "c" ∷ "d" ∷ []) ("a" ∷ []))
        ≡ true)
unfolding validate_url to_lower
follow-safe_example =
    follow-safe plain_tools small_net 2 "a" ("b" ∷ "c" ∷ "d" ∷ []) (omega arith) refl

abbrev in_order : MapOrder
in_order = record { visit = λ m. m; visit_lookup = λ m k. refl; visit_nodup = λ m u. u }

abbrev three_feeds : List ExportFeed
three_feeds =
    record { name = "a"; url = "https://a.example"; site_url = ""; category = "news" }
    ∷ record { name = "b"; url = "https://b.example"; site_url = ""; category = "" }
    ∷ record { name = ""; url = "https://c.example"; site_url = ""; category = "news" }
    ∷ []

parse_body-export_body_example :
    keep (λ (f : Feed). f.category == "news") (parse_body (export_body in_order three_feeds))
    ≡ map (λ f. filed f.category f) (keep (λ (f : ExportFeed). f.category == "news") three_feeds)
parse_body-export_body_example = parse_body-export_body in_order three_feeds "news" refl

-- the headers of the README's example
abbrev webhook_headers : String → String
webhook_headers name =
    if name == "Authorization"
    then "Bearer secret"
    else if name == "Content-Type"
    then "message/rfc822"
    else ""

handler-webhook_example :
    (handler countdown body_limit_paths env clock (webhook_request webhook_headers) gate).1 ≡ (
      if webhook_headers "X-Requested-With" == ""
      then answered (record { status = 403 })
      else passed (record (webhook_request webhook_headers) {
        body_limit = some newsletter_ingest_max_body;
      }))
handler-webhook_example = handler-webhook countdown env clock webhook_headers gate
