-- ===== src/Auth/Providers.antt =====
-- srv/auth.go: `Identity` and `DevProvider`; srv/auth_proxy.go, auth_tailscale.go, auth_authelia.go,
-- auth_oauth2proxy.go and auth_exedev.go: the providers that read headers.
use feedreader.Prelude.{String, ◌==◌, String_eq, if◌then◌else◌}
use feedreader.Http.{Request}

pub record Identity : Type 0 where
  pub external_id : String
  pub email : String

-- `(*Identity, error)`: an error, a nil identity, or an identity
pub data Authentication : Type 0 where
  provider_error : Authentication
  anonymous : Authentication
  identified : Identity → Authentication

-- the interface `AuthProvider`
abbrev pub AuthProvider : Type 0
AuthProvider = Request → Authentication

-- a nil identity for an empty external ID
unfoldable pub identify : String → String → Authentication
identify external_id email =
    if external_id == ""
    then anonymous
    else identified (record { external_id = external_id; email = email })

abbrev pub dev_identity : Identity
dev_identity = record { external_id = "dev-user"; email = "dev@localhost" }

abbrev pub dev_provider : AuthProvider
dev_provider r = identified dev_identity

abbrev pub or_default : String → String → String
or_default name default = if name == "" then default else name

pub record ProxyHeaderProvider : Type 0 where
  pub user_id_header : String
  pub email_header : String

unfoldable pub proxy_header_provider : ProxyHeaderProvider → AuthProvider
unfolding identify
proxy_header_provider p r =
    identify (r.header (or_default p.user_id_header "Remote-User"))
      (r.header (or_default p.email_header "Remote-Email"))

unfoldable pub tailscale_provider : AuthProvider
unfolding identify
tailscale_provider r = let login = r.header "Tailscale-User-Login" in identify login login

unfoldable pub authelia_provider : AuthProvider
unfolding identify
authelia_provider r = identify (r.header "Remote-User") (r.header "Remote-Email")

unfoldable pub oauth2_proxy_provider : AuthProvider
unfolding identify
oauth2_proxy_provider r =
    let email = r.header "X-Forwarded-Email" in
    let user = r.header "X-Forwarded-User" in identify (if email == "" then user else email) email

unfoldable pub exe_dev_provider : AuthProvider
unfolding identify
exe_dev_provider r = identify (r.header "X-Exedev-Userid") (r.header "X-Exedev-Email")
