-- ===== src/SafeNet/Client.antt =====
-- srv/safenet/safenet.go: `ValidateURL`, `DialContext` and `redirectChecker`.
use feedreader.Prelude.{
  ℕ, String, Bool, true, false, not, Option, none, some, List, [], ◌∷◌, leb, ◌||◌, ◌==◌, String_eq,
  any, length, if◌then◌else◌,
}
use feedreader.Strings.{TextTools, to_lower}
use feedreader.SafeNet.Ranges.{Ip, is_private_ip}

pub record Url : Type 0 where
  pub scheme : String
  pub hostname : String

-- what the package takes from `net` and `net/url`; `none` is an error
pub record Net : Type 0 where
  pub parse_url : String → Option Url
  pub parse_ip : String → Option Ip
  pub split_host_port : String → Option (String × String)
  pub lookup_ip_addr : String → Option (List Ip)

pub data UrlError : Type 0 where
  invalid_url : UrlError
  scheme_not_allowed : UrlError
  empty_hostname : UrlError
  hostname_blocked : UrlError
  address_blocked : UrlError

abbrev pub blocked_hosts : List String
blocked_hosts = "metadata.google.internal" ∷ "metadata.google" ∷ []

module _ (tools : TextTools) (net : Net) where
  abbrev pub check_literal : Option Ip → Option UrlError
  check_literal none = none
  check_literal (some ip) = if is_private_ip ip then some address_blocked else none

  abbrev pub check_url : Option Url → Option UrlError
  check_url none = some invalid_url
  check_url (some u) =
      if not (u.scheme == "http" || u.scheme == "https")
      then some scheme_not_allowed
      else if u.hostname == ""
      then some empty_hostname
      else if any (λ h. h == to_lower tools u.hostname) blocked_hosts
      then some hostname_blocked
      else check_literal (net.parse_ip u.hostname)

  -- `none` is a URL that is safe to fetch
  unfoldable pub validate_url : String → Option UrlError
  validate_url raw = check_url (net.parse_url raw)

  -- the address that the dialer connects to
  abbrev pub dial_first : List Ip → Option Ip
  dial_first [] = none
  dial_first (ip ∷ ips) = some ip

  abbrev pub dial_resolved : Option (List Ip) → Option Ip
  dial_resolved none = none
  dial_resolved (some ips) = if any is_private_ip ips then none else dial_first ips

  abbrev pub dial_host : Option (String × String) → Option Ip
  dial_host none = none
  dial_host (some (host, port)) = dial_resolved (net.lookup_ip_addr host)

  -- `none` is an error, before any connection
  unfoldable pub dial_context : String → Option Ip
  unfolding is_private_ip
  dial_context addr = dial_host (net.split_host_port addr)

  abbrev pub max_redirects : ℕ
  max_redirects = 10

  -- `via` holds the requests made so far; `true` is a nil error
  unfoldable pub redirect_checker : ℕ → String → List String → Bool
  unfolding validate_url
  redirect_checker limit url via =
      if leb limit (length via)
      then false
      else elim (validate_url url) [ none ↦ true | some e ↦ false ]

  -- the requests that a client makes for a chain of redirects, the last one first: it makes the
  -- next one just if the checker has no error
  unfoldable pub follow : ℕ → List String → List String → List String
  unfolding redirect_checker
  follow limit [] via = via
  follow limit (url ∷ targets) via =
      let rest = follow limit targets (url ∷ via) in
      if redirect_checker limit url via then rest else via
