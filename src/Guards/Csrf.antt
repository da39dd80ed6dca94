-- ===== src/Guards/Csrf.antt =====
-- srv/csrf.go: `csrfMiddleware`.
use feedreader.Prelude.{◌&&◌, ◌==◌, String_eq, if◌then◌else◌}
use feedreader.Strings.{has_prefix}
use feedreader.Http.{Request, Verdict, answered, passed, is_state_changing}

unfoldable pub csrf_middleware : Request → Verdict
unfolding has_prefix is_state_changing
csrf_middleware r =
    if has_prefix r.path "/api/" && is_state_changing r.method
    then if r.header "X-Requested-With" == "" then answered (record { status = 403 }) else passed r
    else passed r
