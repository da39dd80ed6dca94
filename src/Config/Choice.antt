-- ===== src/Config/Choice.antt =====
-- cmd/srv/main.go and cmd/srv/init.go together: every choice of `init` starts a server, but one.
use feedreader.Prelude.{
  String, ◌≡◌, refl, sym, ap, ◌∙◌, Bool, true, false, not, Option, some, List, [], ◌∷◌, any, all,
  ◌&&◌, ◌==◌, String_eq, Bool-cases, inl, inr, arith, if◌then◌else◌,
}
use text.Mathlib.TextEquality.{eq_iff}
use feedreader.Prelude.Dict.{Dict, lookup}
use feedreader.Config.Settings.{
  AuthConfig, ProxyAuthConfig, CloudflareAuthConfig, Built, no_provider, unknown_provider,
  team_domain_missing, built, auth_provider_names, build_auth_provider, cloudflare_settings,
  resolve_provider_choice, name_or_folded, folded_name, numbered_providers,
}

abbrev pub is_built : Built → Bool
is_built no_provider = false
is_built unknown_provider = false
is_built team_domain_missing = false
is_built (built p) = true

-- a name of the list of supported providers
abbrev is_provider_name : String → Bool
is_provider_name name = any (λ n. name == n) auth_provider_names

-- Cloudflare Access without a team domain
abbrev lacks_team : AuthConfig → Bool
lacks_team auth =
    auth.provider == "cloudflare" && (cloudflare_settings auth.cloudflare).team_domain == ""

with_cloudflare :
    (name : String) (proxy : Option ProxyAuthConfig) (cloudflare : Option CloudflareAuthConfig)
    → "cloudflare" ≡ name
    → is_built
        (build_auth_provider (record { provider = name; proxy = proxy; cloudflare = cloudflare }))
      ≡ (is_provider_name name
          && not (name == "cloudflare" && (cloudflare_settings cloudflare).team_domain == ""))
unfolding build_auth_provider
with_cloudflare name proxy cloudflare e =
    rw (sym e) (elim (Bool-cases ((cloudflare_settings cloudflare).team_domain == "")) [
      | inl missing ↦ rw missing refl
      | inr there ↦ rw there refl
    ])

-- `buildAuthProvider` makes a provider exactly from the names that the configuration lists, with a
-- team domain where the name is that of Cloudflare Access; anything else makes none.
is_built-build_auth_provider :
    (auth : AuthConfig)
    → is_built (build_auth_provider auth)
      ≡ (is_provider_name auth.provider && not (lacks_team auth))
unfolding build_auth_provider
is_built-build_auth_provider auth = elim (Bool-cases (auth.provider == "cloudflare")) [
  | inl e ↦
      with_cloudflare auth.provider auth.proxy auth.cloudflare
        (sym ((eq_iff auth.provider "cloudflare").0 e))
  | inr e ↦ elim (Bool-cases (auth.provider == "")) [
    | inr some_name ↦ rw (e, some_name) (ground arith)
    | inl empty ↦
        rw (e, empty) (ap is_provider_name (sym ((eq_iff auth.provider "").0 empty)) ∙ ground arith)
  ]
]

either_name :
    (b : Bool) (x y : String)
    → is_provider_name x ≡ true
    → is_provider_name y ≡ true
    → is_provider_name (if b then x else y) ≡ true
either_name true x y h k = h
either_name false x y h k = k

numbered_or :
    (fold : String → String → Bool) (text name : String) (b : Bool) (o : Option String)
    → is_provider_name name ≡ true
    → is_provider_name (name_or_folded fold o text) ≡ true
    → is_provider_name (name_or_folded fold (if b then some name else o) text) ≡ true
numbered_or fold text name true o h k = h
numbered_or fold text name false o h k = k

folded :
    (fold : String → String → Bool) (text : String) (names : List String)
    → all is_provider_name names ≡ true
    → is_provider_name (folded_name fold text names) ≡ true
unfolding folded_name
folded fold text [] h = refl
folded fold text (name ∷ names) h =
    either_name (fold text name) name (folded_name fold text names) (ground arith)
      (folded fold text names (ground arith))

listed :
    (fold : String → String → Bool) (text : String) (numbered : Dict String String)
    → all (λ e. is_provider_name e.1) numbered ≡ true
    → is_provider_name (name_or_folded fold (lookup text numbered) text) ≡ true
unfolding lookup
listed fold text [] h = folded fold text auth_provider_names refl
listed fold text ((number, name) ∷ numbered) h =
    numbered_or fold text name (number == text) (lookup text numbered) (ground arith)
      (listed fold text numbered (ground arith))

resolved :
    (fold : String → String → Bool) (text : String)
    → is_provider_name (resolve_provider_choice fold text) ≡ true
unfolding resolve_provider_choice
resolved fold text = listed fold text numbered_providers refl

-- Whatever is typed, `resolveProviderChoice` gives a name that `buildAuthProvider` makes a provider
-- from, unless that name is Cloudflare Access and the team domain was left empty.
pub resolve_provider_choice-is_built :
    (equal_fold : String → String → Bool) (input : String) (proxy : Option ProxyAuthConfig)
    (cloudflare : Option CloudflareAuthConfig)
    → is_built (
        build_auth_provider (record {
          provider = resolve_provider_choice equal_fold input;
          proxy = proxy;
          cloudflare = cloudflare;
        }))
      ≡ not (
          resolve_provider_choice equal_fold input == "cloudflare"
          && (cloudflare_settings cloudflare).team_domain == "")
resolve_provider_choice-is_built equal_fold input proxy cloudflare =
    is_built-build_auth_provider _
    ∙ ap
        (λ b.
          b
          && not (
              resolve_provider_choice equal_fold input == "cloudflare"
              && (cloudflare_settings cloudflare).team_domain == ""))
        (resolved equal_fold input)
