-- ===== src/Auth/Cloudflare.antt =====
-- srv/auth_cloudflare.go: `CloudflareAccessProvider`. Signatures and claims are checked by
-- github.com/golang-jwt/jwt, the bytes of a key are decoded by Go's base64 and crypto/ecdsa, and the
-- key set comes over HTTP: the fields of `Tokens`, and the argument `answer`.
use feedreader.Prelude.{
  ℕ, String, Bool, not, Option, none, some, List, [], ◌∷◌, ◌++◌, ltb, ◌-◌, ◌&&◌, ◌==◌, String_eq,
  if◌then◌else◌,
}
use feedreader.Prelude.Dict.{Dict, lookup, insert}
use feedreader.Http.{Request}
use feedreader.Auth.Providers.{Authentication, provider_error, anonymous, identified}

-- `cfJWK`
pub record CfJwk : Type 0 where
  pub kid : String
  pub kty : String
  pub alg : String
  pub crv : String
  pub x : String
  pub y : String

-- the two curves of crypto/elliptic that a key may name
pub data Curve : Type 0 where
  p256 : Curve
  p384 : Curve

abbrev pub curve_of : String → Option Curve
curve_of crv = if crv == "P-256" then some p256 else if crv == "P-384" then some p384 else none

pub record Tokens : Type 1 where
  pub PublicKey : Type 0
  -- strings.EqualFold
  pub equal_fold : String → String → Bool
  -- base64.RawURLEncoding.DecodeString; `none` is its error
  pub decode_string : String → Option (List ℕ)
  -- ecdsa.ParseUncompressedPublicKey; `none` is its error
  pub parse_uncompressed_public_key : Curve → List ℕ → Option PublicKey
  -- the `kid` header of a token that decodes; the empty text where it has none
  pub kid_of : String → Option String
  -- jwt.Parse with a key, for a team's issuer and an audience: the `email` claim of a token whose
  -- signature and claims are valid, the empty text where it has none
  pub verify : PublicKey → String → String → String → Option String

-- 10 minutes, in nanoseconds
abbrev pub cf_jwks_cache_duration : ℕ
cf_jwks_cache_duration = 600000000000

-- the identity is the claim's, never the header's
abbrev pub identity_of : Option String → Authentication
identity_of none = provider_error
identity_of (some email) =
    if email == ""
    then provider_error
    else identified (record { external_id = email; email = email })

abbrev pub email_header : Request → String
email_header r = r.header "Cf-Access-Authenticated-User-Email"

abbrev pub jwt_header : Request → String
jwt_header r = r.header "Cf-Access-Jwt-Assertion"

module _ (tokens : Tokens) where
  -- the fields of the provider; a nil `keyCache` is `none`
  pub record CloudflareAccessProvider : Type 0 where
    pub team_domain : String
    pub audience : String
    pub key_cache : Option (Dict String tokens.PublicKey)
    pub key_cached_at : ℕ

  -- 0x04, and the bytes of both coordinates
  abbrev pub parse_point :
      Option Curve → Option (List ℕ) → Option (List ℕ) → Option tokens.PublicKey
  parse_point none x y = none
  parse_point (some curve) none y = none
  parse_point (some curve) (some x) none = none
  parse_point (some curve) (some x) (some y) =
      tokens.parse_uncompressed_public_key curve ((4 ∷ x) ++ y)

  -- `none` is the error
  unfoldable pub parse_ec_public_key : CfJwk → Option tokens.PublicKey
  parse_ec_public_key k =
      if not (tokens.equal_fold k.kty "EC")
      then none
      else parse_point (curve_of k.crv) (tokens.decode_string k.x) (tokens.decode_string k.y)

  abbrev pub put_key :
      String → Option tokens.PublicKey → Dict String tokens.PublicKey → Dict String tokens.PublicKey
  put_key kid none keys = keys
  put_key kid (some key) keys = insert kid key keys

  -- the loop over the keys of the answer: a key that does not parse is skipped
  unfoldable pub collect_keys :
      List CfJwk → Dict String tokens.PublicKey → Dict String tokens.PublicKey
  collect_keys [] keys = keys
  collect_keys (k ∷ jwks) keys = collect_keys jwks (put_key k.kid (parse_ec_public_key k) keys)

  abbrev pub usable_keys : Dict String tokens.PublicKey → Option (Dict String tokens.PublicKey)
  usable_keys [] = none
  usable_keys (k ∷ keys) = some (k ∷ keys)

  -- `none` stands for a request that fails, another status than 200, and a body that is not JSON
  unfoldable pub fetch_jwks : Option (List CfJwk) → Option (Dict String tokens.PublicKey)
  unfolding collect_keys
  fetch_jwks none = none
  fetch_jwks (some jwks) = usable_keys (collect_keys jwks [])

  abbrev pub cached_key :
      Option (Dict String tokens.PublicKey) → ℕ → ℕ → String → Option tokens.PublicKey
  cached_key none cached_at now kid = none
  cached_key (some keys) cached_at now kid =
      if ltb (now - cached_at) cf_jwks_cache_duration then lookup kid keys else none

  abbrev pub KeyResult : Type 0
  KeyResult = CloudflareAccessProvider × Option tokens.PublicKey

  abbrev pub store_keys :
      Option (Dict String tokens.PublicKey) → ℕ → String → CloudflareAccessProvider → KeyResult
  store_keys none now kid p = (p, none)
  store_keys (some keys) now kid p =
      (record p { key_cache = some keys; key_cached_at = now }, lookup kid keys)

  abbrev pub key_or_fetch :
      Option tokens.PublicKey
      → Option (List CfJwk)
      → ℕ
      → String
      → CloudflareAccessProvider
      → KeyResult
  key_or_fetch (some key) answer now kid p = (p, some key)
  key_or_fetch none answer now kid p = store_keys (fetch_jwks answer) now kid p

  -- `answer` is what the endpoint would send now
  unfoldable pub get_key : Option (List CfJwk) → ℕ → String → CloudflareAccessProvider → KeyResult
  unfolding fetch_jwks
  get_key answer now kid p =
      key_or_fetch (cached_key p.key_cache p.key_cached_at now kid) answer now kid p

  abbrev pub verify_with : String → KeyResult → CloudflareAccessProvider × Option String
  verify_with token (p, none) = (p, none)
  verify_with token (p, some key) = (p, tokens.verify key p.team_domain p.audience token)

  abbrev pub validate_kid :
      Option String
      → Option (List CfJwk)
      → ℕ
      → String
      → CloudflareAccessProvider
      → CloudflareAccessProvider × Option String
  validate_kid none answer now token p = (p, none)
  validate_kid (some kid) answer now token p =
      if kid == "" then (p, none) else verify_with token (get_key answer now kid p)

  unfoldable pub validate_jwt :
      Option (List CfJwk)
      → ℕ
      → String
      → CloudflareAccessProvider
      → CloudflareAccessProvider × Option String
  unfolding get_key
  validate_jwt answer now token p = validate_kid (tokens.kid_of token) answer now token p

  unfoldable pub cloudflare_authenticate :
      Option (List CfJwk)
      → ℕ
      → Request
      → CloudflareAccessProvider
      → CloudflareAccessProvider × Authentication
  unfolding validate_jwt
  cloudflare_authenticate answer now r p =
      if email_header r == "" && jwt_header r == ""
      then (p, anonymous)
      else if jwt_header r == ""
      then (p, provider_error)
      else (let (after, email) = validate_jwt answer now (jwt_header r) p in
          (after, identity_of email))
