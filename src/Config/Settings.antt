-- ===== src/Config/Settings.antt =====
-- config/config.go: the values of the file that the functions here read. cmd/srv/main.go:
-- `resolveConfigPath`, `mergeConfig` and `buildAuthProvider`; cmd/srv/init.go:
-- `resolveProviderChoice`.
use feedreader.Prelude.{
  String, Bool, not, Option, none, some, List, [], ◌∷◌, ◌&&◌, ◌==◌, String_eq, if◌then◌else◌,
}
use feedreader.Prelude.Dict.{Dict, lookup}
use feedreader.Auth.Providers.{ProxyHeaderProvider}

pub record ProxyAuthConfig : Type 0 where
  pub user_id_header : String
  pub email_header : String

pub record CloudflareAuthConfig : Type 0 where
  pub team_domain : String
  pub audience : String

pub record AuthConfig : Type 0 where
  pub provider : String
  pub proxy : Option ProxyAuthConfig
  pub cloudflare : Option CloudflareAuthConfig

pub record Config : Type 0 where
  pub listen : String
  pub db : String
  pub email_domain : String
  pub auth : AuthConfig

abbrev pub auth_provider_names : List String
auth_provider_names =
    "proxy" ∷ "tailscale" ∷ "cloudflare" ∷ "authelia" ∷ "oauth2_proxy" ∷ "exedev" ∷ []

-- the value of a flag, and whether the command line sets it
pub record Flag : Type 0 where
  pub value : String
  pub is_set : Bool

unfoldable pub resolve_config_path : String → String → Bool → String
resolve_config_path flag env_path file_exists =
    if not (flag == "")
    then flag
    else if not (env_path == "")
    then env_path
    else if file_exists
    then "config.toml"
    else ""

abbrev pub merge_flag : Flag → String → String
merge_flag flag configured =
    if not flag.is_set && not (configured == "") then configured else flag.value

unfoldable pub merge_config : Option Config → Flag → Flag → Flag → String × String × String
merge_config none listen db email_domain = (listen.value, db.value, email_domain.value)
merge_config (some cfg) listen db email_domain =
    (merge_flag listen cfg.listen, merge_flag db cfg.db, merge_flag email_domain cfg.email_domain)

-- the provider that is set up, with its settings
pub data Provider : Type 0 where
  exe_dev : Provider
  proxy_header : ProxyHeaderProvider → Provider
  tailscale : Provider
  cloudflare_access : CloudflareAuthConfig → Provider
  authelia : Provider
  oauth2_proxy : Provider

-- a nil provider with a nil error, the two errors, or a provider
pub data Built : Type 0 where
  no_provider : Built
  unknown_provider : Built
  team_domain_missing : Built
  built : Provider → Built

abbrev pub proxy_settings : Option ProxyAuthConfig → ProxyHeaderProvider
proxy_settings none = record { user_id_header = ""; email_header = "" }
proxy_settings (some p) = record {
  user_id_header = p.user_id_header;
  email_header = p.email_header;
}

abbrev pub cloudflare_settings : Option CloudflareAuthConfig → CloudflareAuthConfig
cloudflare_settings none = record { team_domain = ""; audience = "" }
cloudflare_settings (some c) = c

abbrev pub build_cloudflare : CloudflareAuthConfig → Built
build_cloudflare c =
    if c.team_domain == "" then team_domain_missing else built (cloudflare_access c)

unfoldable pub build_auth_provider : AuthConfig → Built
build_auth_provider auth =
    if auth.provider == ""
    then no_provider
    else if auth.provider == "exedev"
    then built exe_dev
    else if auth.provider == "proxy"
    then built (proxy_header (proxy_settings auth.proxy))
    else if auth.provider == "tailscale"
    then built tailscale
    else if auth.provider == "cloudflare"
    then build_cloudflare (cloudflare_settings auth.cloudflare)
    else if auth.provider == "authelia"
    then built authelia
    else if auth.provider == "oauth2_proxy"
    then built oauth2_proxy
    else unknown_provider

abbrev pub numbered_providers : Dict String String
numbered_providers =
    ("1", "proxy")
    ∷ ("2", "tailscale")
    ∷ ("3", "cloudflare")
    ∷ ("4", "authelia")
    ∷ ("5", "oauth2_proxy")
    ∷ ("6", "exedev")
    ∷ []

-- `strings.EqualFold`
module _ (equal_fold : String → String → Bool) where
  unfoldable pub folded_name : String → List String → String
  folded_name input [] = "proxy"
  folded_name input (name ∷ names) =
      let later = folded_name input names in if equal_fold input name then name else later

  abbrev pub name_or_folded : Option String → String → String
  name_or_folded (some name) input = name
  name_or_folded none input = folded_name input auth_provider_names

  unfoldable pub resolve_provider_choice : String → String
  unfolding folded_name lookup
  resolve_provider_choice input = name_or_folded (lookup input numbered_providers) input
