-- ===== src/Auth/Keys.antt =====
-- srv/auth_cloudflare.go: where an identity and the key behind it come from.
use feedreader.Prelude.{
  ℕ, String, ◌≡◌, refl, sym, ap, ◌∙◌, Option, none, some, List, ltb, ◌-◌, ◌<◌, ◌&&◌, ◌==◌,
  String_eq, Bool-cases, Option-cases, inl, inr, arith,
}
use feedreader.Prelude.Dict.{Dict, lookup}
use feedreader.Http.{Request}
use feedreader.Auth.Providers.{Identity, provider_error, anonymous, identified}
use feedreader.Auth.Cloudflare.{
  CfJwk, Tokens, CloudflareAccessProvider, cached_key, cf_jwks_cache_duration, fetch_jwks, get_key,
  store_keys, validate_jwt, validate_kid, verify_with, identity_of, jwt_header, email_header,
  cloudflare_authenticate,
}

module _ (tokens : Tokens) where
  -- the key is in the provider's cache under its number, and the cache is under ten minutes old
  abbrev pub InFreshCache : ℕ → String → tokens.PublicKey → CloudflareAccessProvider tokens → Type 0
  InFreshCache now kid key p =
      (keys : Dict String tokens.PublicKey) × (p.key_cache ≡ some keys)
      × (lookup kid keys ≡ some key)
      × (now - p.key_cached_at < cf_jwks_cache_duration)

  found_in_cache :
      (o : Option (Dict String tokens.PublicKey)) (at now : ℕ) (kid : String)
      (key : tokens.PublicKey)
      → cached_key tokens o at now kid ≡ some key
      → (keys : Dict String tokens.PublicKey) × (o ≡ some keys)
        × (lookup kid keys ≡ some key)
        × (now - at < cf_jwks_cache_duration)
  found_in_cache none at now kid key h = absurd (cc)
  found_in_cache (some keys) at now kid key h =
      elim (Bool-cases (ltb (now - at) cf_jwks_cache_duration)) [
        | inl young ↦ (keys, refl, rw young at h, ground arith)
        | inr old ↦ absurd (ground arith)
      ]

  -- A key that `getKey` returns is in the provider's cache afterwards, under its number, and that
  -- cache is less than ten minutes old, whether it was cached or has been fetched.
  pub get_key-InFreshCache :
      (answer : Option (List CfJwk)) (now : ℕ) (kid : String) (p : CloudflareAccessProvider tokens)
      (key : tokens.PublicKey)
      → (get_key tokens answer now kid p).1 ≡ some key
      → InFreshCache now kid key (get_key tokens answer now kid p).0
  unfolding get_key
  get_key-InFreshCache answer now kid p key h =
      elim (Option-cases (cached_key tokens p.key_cache p.key_cached_at now kid)) [
        | inr (cached, found) ↦
            rw found
              (found_in_cache p.key_cache p.key_cached_at now kid key (found ∙ (rw found at h)))
        | inl missing ↦ rw missing (of_fetch (fetch_jwks tokens answer) (rw missing at h))
      ]
    where
      of_fetch :
          (o : Option (Dict String tokens.PublicKey))
          → (store_keys tokens o now kid p).1 ≡ some key
          → InFreshCache now kid key (store_keys tokens o now kid p).0
      of_fetch none k = absurd (cc)
      of_fetch (some keys) k = (keys, refl, k, omega arith)

  identified_injective : {i j : Identity} → identified i ≡ identified j → i ≡ j
  identified_injective {i} h =
      ap (λ a. elim a [ provider_error ↦ i | anonymous ↦ i | identified x ↦ x ]) h

  -- what stands behind an identity
  abbrev pub Verified : ℕ → String → Identity → CloudflareAccessProvider tokens → Type 0
  Verified now token id p =
      (kid : String) × (key : tokens.PublicKey) × (tokens.kid_of token ≡ some kid)
      × InFreshCache now kid key p
      × (tokens.verify key p.team_domain p.audience token ≡ some id.external_id)
      × (id.email ≡ id.external_id)

  claimed :
      (o : Option String) (id : Identity)
      → identity_of o ≡ identified id
      → (o ≡ some id.external_id) × (id.email ≡ id.external_id)
  claimed none id h = absurd (cc)
  claimed (some email) id h = elim (Bool-cases (email == "")) [
    | inl e ↦ absurd (ground arith)
    | inr e ↦
        let same : record { external_id = email; email = email } ≡ id =
          identified_injective (rw e at h) in
        (
          ap (λ (i : Identity). some i.external_id) same,
          ap (λ (i : Identity). i.email) (sym same) ∙ ap (λ (i : Identity). i.external_id) same,
        )
  ]

  -- An identity that the provider gives is the email claim of the token in the request's JWT header,
  -- whose signature and claims hold for the provider's team and audience under a key that stands in
  -- the provider's cache, less than ten minutes old, at the token's key number.
  pub cloudflare_authenticate-Verified :
      (answer : Option (List CfJwk)) (now : ℕ) (r : Request) (p : CloudflareAccessProvider tokens)
      (id : Identity)
      → (cloudflare_authenticate tokens answer now r p).1 ≡ identified id
      → Verified now (jwt_header r) id (cloudflare_authenticate tokens answer now r p).0
  unfolding cloudflare_authenticate validate_jwt
  cloudflare_authenticate-Verified answer now r p id h =
      elim (Bool-cases (email_header r == "" && jwt_header r == "")) [
        | inl absent ↦ absurd (ground arith)
        | inr present ↦ elim (Bool-cases (jwt_header r == "")) [
          | inl empty ↦ absurd (ground arith)
          | inr token ↦
              rw (present, token)
                (of_kid (tokens.kid_of (jwt_header r)) refl (rw (present, token) at h))
        ]
      ]
    where
      of_key :
          (kid : String) (key : tokens.PublicKey) (q : CloudflareAccessProvider tokens)
          → tokens.kid_of (jwt_header r) ≡ some kid
          → InFreshCache now kid key q
          → identity_of (tokens.verify key q.team_domain q.audience (jwt_header r)) ≡ identified id
          → Verified now (jwt_header r) id q
      of_key kid key q e fresh k =
          let (claim, same) =
            claimed (tokens.verify key q.team_domain q.audience (jwt_header r)) id k in
          (kid, key, e, fresh, claim, same)

      of_result :
          (kid : String) (q : CloudflareAccessProvider tokens) (o : Option tokens.PublicKey)
          → tokens.kid_of (jwt_header r) ≡ some kid
          → ((key : tokens.PublicKey) → o ≡ some key → InFreshCache now kid key q)
          → identity_of (verify_with tokens (jwt_header r) (q, o)).1 ≡ identified id
          → Verified now (jwt_header r) id (verify_with tokens (jwt_header r) (q, o)).0
      of_result kid q none e fresh k = absurd (cc)
      of_result kid q (some key) e fresh k = of_key kid key q e (fresh key refl) k

      of_kid :
          (o : Option String)
          → tokens.kid_of (jwt_header r) ≡ o
          → identity_of (validate_kid tokens o answer now (jwt_header r) p).1 ≡ identified id
          → Verified now (jwt_header r) id (validate_kid tokens o answer now (jwt_header r) p).0
      of_kid none e k = absurd (cc)
      of_kid (some kid) e k = elim (Bool-cases (kid == "")) [
        | inl empty ↦ absurd (ground arith)
        | inr some_kid ↦ rw some_kid (
            of_result kid (get_key tokens answer now kid p).0 (get_key tokens answer now kid p).1 e
              (get_key-InFreshCache answer now kid p) (rw some_kid at k))
      ]
