-- ===== src/Guards/Laws.antt =====
-- What the router may rely on: srv/csrf.go, body_limit.go, ratelimit.go and the order of `Handler`.
use feedreader.Prelude.{
  ℕ, String, ◌≡◌, refl, sym, ap, ◌∙◌, Bool, true, false, not, Option, none, some, List, [], ◌∷◌,
  Option-cases, Bool-cases, ◌&&◌, ◌||◌, ◌==◌, String_eq, ℕ_eq, inl, inr, arith, if◌then◌else◌,
}
use feedreader.Strings.{has_prefix}
use feedreader.Http.{User, Request, Response, Verdict, answered, passed, is_state_changing}
use feedreader.Db.Calls.{get_or_create_user_call}
use feedreader.Auth.Providers.{Identity, Authentication, provider_error, anonymous, identified}
use feedreader.Auth.Middleware.{
  Env, AuthState, auth_middleware, is_open, fall_back, newsletter_ingest_path, serve, serve_cached,
  serve_stored,
}
use feedreader.Auth.Cache.{get}
use feedreader.Auth.Users.{Known, Identified, cached-Identified, stored-Identified}
use feedreader.Guards.Csrf.{csrf_middleware}
use feedreader.Guards.BodyLimit.{
  body_limit_middleware, body_limit_paths, limit_for, upload_body_limit, default_body_limit,
  newsletter_ingest_max_body,
}
use feedreader.Guards.RateLimit.{Rate, RateLimiter, rate_limit_middleware, limit_user, allow_write}
use feedreader.Guards.Chain.{Clock, Gate, handler, then_csrf}

-- In both orders in which a loop can visit the two paths, an upload path has the limit of 10 MB and
-- every other path that of 1 MB.
limit_for-order :
    (path : String)
    → (limit_for body_limit_paths path ≡ (
        if has_prefix path "/api/opml/import" || has_prefix path newsletter_ingest_path
        then upload_body_limit
        else default_body_limit))
      × (limit_for
            ((newsletter_ingest_path, newsletter_ingest_max_body)
              ∷ ("/api/opml/import", upload_body_limit)
              ∷ [])
            path
          ≡ limit_for body_limit_paths path)
unfolding limit_for
limit_for-order path = (ground arith, ground arith)

-- a state-changing request to the API carries the header
abbrev pub has_csrf_header : Request → Bool
has_csrf_header r =
    not (has_prefix r.path "/api/" && is_state_changing r.method)
    || not (r.header "X-Requested-With" == "")

passed_injective : {q r : Request} → passed q ≡ passed r → q ≡ r
passed_injective {q} h = ap (λ v. elim v [ answered a ↦ q | passed x ↦ x ]) h

answered_not_passed {ℓ} : {B : Type ℓ} {a : Response} {r : Request} → answered a ≡ passed r → B
answered_not_passed h = absurd (cc)

module _ (rate : Rate) where
  limited :
      (now : ℕ) (q r : Request) (rl : RateLimiter rate)
      → (rate_limit_middleware rate now q rl).1 ≡ passed r
      → q ≡ r
  unfolding rate_limit_middleware
  limited now q r rl h =
      elim (Bool-cases (not (has_prefix q.path "/api/") || not (is_state_changing q.method))) [
        | inl e ↦ passed_injective (rw e at h)
        | inr e ↦ of_user q.user (rw e at h)
      ]
    where
      of_user : (o : Option User) → (limit_user rate o now q rl).1 ≡ passed r → q ≡ r
      of_user none k = passed_injective k
      of_user (some u) k = elim (Bool-cases (allow_write rate now u.id rl).1) [
        | inl e ↦ passed_injective (rw e at k)
        | inr e ↦ answered_not_passed (rw e at k)
      ]

  csrf_passed :
      (now : ℕ) (q r : Request) (rl : RateLimiter rate)
      → (then_csrf rate now (passed q) rl).1 ≡ passed r
      → (q ≡ r) × (has_csrf_header q ≡ true)
  unfolding csrf_middleware
  csrf_passed now q r rl h =
      elim (Bool-cases (has_prefix q.path "/api/" && is_state_changing q.method)) [
        | inr free ↦ (limited now q r rl (rw free at h), ground arith)
        | inl guarded ↦ elim (Bool-cases (q.header "X-Requested-With" == "")) [
          | inl missing ↦ answered_not_passed (rw (guarded, missing) at h)
          | inr there ↦ (limited now q r rl (rw (guarded, there) at h), ground arith)
        ]
      ]

  of_user :
      (env : Env) (clock : ℕ) (id : Identity) (q r : Request) (rl : RateLimiter rate)
      (out : AuthState × Verdict)
      → Identified id q out
      → (then_csrf rate clock out.1 rl).1 ≡ passed r
      → (u : User) × (r.user ≡ some u)
        × (u.external_id ≡ id.external_id)
        × (has_csrf_header q ≡ true)
  of_user env clock id q r rl (s, v) (u, e, ext, row, known) h =
      let (same, header) =
        csrf_passed clock (record q { user = some u }) r rl
          (ap (λ w. (then_csrf rate clock w rl).1) (sym e) ∙ h) in
      (u, ap (λ (x : Request). x.user) (sym same), ext, header)

  -- the part of the chain inside the authentication
  after_auth :
      (env : Env) (now seconds clock : ℕ) (q r : Request) (s : AuthState) (rl : RateLimiter rate)
      → Known s
      → is_open q.path ≡ false
      → (then_csrf rate clock (auth_middleware env now seconds q s).1 rl).1 ≡ passed r
      → (id : Identity) × (u : User) × (fall_back env.is_development (env.provider q)
          ≡ identified id)
        × (r.user ≡ some u)
        × (u.external_id ≡ id.external_id)
        × (has_csrf_header q ≡ true)
  unfolding auth_middleware get
  after_auth env now seconds clock q r s rl known closed h =
      of_provider (fall_back env.is_development (env.provider q)) refl (rw closed at h)
    where
      of_provider :
          (a : Authentication)
          → fall_back env.is_development (env.provider q) ≡ a
          → (then_csrf rate clock (serve a env now seconds q s).1 rl).1 ≡ passed r
          → (id : Identity) × (u : User) × (fall_back env.is_development (env.provider q)
              ≡ identified id)
            × (r.user ≡ some u)
            × (u.external_id ≡ id.external_id)
            × (has_csrf_header q ≡ true)
      of_provider provider_error e k = answered_not_passed k
      of_provider anonymous e k = answered_not_passed k
      of_provider (identified id) e k = elim (Option-cases (get s.cache id.external_id)) [
        | inr (cached, there) ↦
            let (u, carried, same, header) =
              of_user env clock id q r rl
                ((serve_cached id cached now q s).0, (serve_cached id cached now q s).1)
                (cached-Identified id cached now q s there known) (rw there at k) in
            (id, u, e, carried, same, header)
        | inl missing ↦ elim (Bool-cases (env.faults (get_or_create_user_call id.external_id))) [
          | inl failed ↦ answered_not_passed (rw (missing, failed) at k)
          | inr ok ↦
              let (u, carried, same, header) =
                of_user env clock id q r rl
                  ((serve_stored env id now seconds q s).0, (serve_stored env id now seconds q s).1)
                  (stored-Identified env id now seconds q s known ok) (rw missing at k) in
              (id, u, e, carried, same, header)
        ]
      ]

  -- While every entry of the cache of users is a row of the table, under its external ID, a request
  -- to a path that needs authentication reaches the router only with a user of the external ID that
  -- the provider, or in development the fallback, found in it, and, when it changes state under
  -- /api/, only with the X-Requested-With header.
  pub handler-guarded :
      (order : List (String × ℕ)) (env : Env) (now : Clock) (r reached : Request) (g : Gate rate)
      → Known g.auth
      → is_open r.path ≡ false
      → (handler rate order env now r g).1 ≡ passed reached
      → (id : Identity) × (u : User) × (fall_back env.is_development
            (env.provider (body_limit_middleware order r))
          ≡ identified id)
        × (reached.user ≡ some u)
        × (u.external_id ≡ id.external_id)
        × (has_csrf_header r ≡ true)
  unfolding handler body_limit_middleware
  handler-guarded order env now r reached g known closed h =
      elim (Bool-cases ((r.method == "POST" || r.method == "PUT") || r.method == "PATCH")) [
        | inl e ↦ rw e (
            after_auth env now.nanoseconds now.seconds now.nanoseconds
              (record r { body_limit = some (limit_for order r.path) }) reached g.auth g.limiter
              known closed (rw e at h))
        | inr e ↦ rw e (
            after_auth env now.nanoseconds now.seconds now.nanoseconds r reached g.auth g.limiter
              known closed (rw e at h))
      ]
