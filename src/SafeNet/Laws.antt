-- ===== src/SafeNet/Laws.antt =====
-- srv/safenet/safenet.go: what the safe client connects to, and how far it follows redirects.
use mathlib.Core.List.{Memᴰ}
use feedreader.Prelude.{
  ℕ, String, ◌≡◌, refl, Bool, true, false, Option, none, some, List, [], ◌∷◌, ◌<◌, ◌≤◌, any, all,
  length, Bool-cases, Option-cases, inl, inr, arith, is_some, not,
}
use feedreader.Strings.{TextTools}
use feedreader.SafeNet.Ranges.{Ip, is_private_ip}
use feedreader.SafeNet.Client.{
  Net, validate_url, dial_context, dial_resolved, dial_host, redirect_checker, follow,
}

module _ (tools : TextTools) (net : Net) where
  -- The dialer connects only to an address that the resolver gave for the host of the call, and
  -- only when no address that it gave is blocked, the one connected to included.
  pub dial_context-safe :
      (addr : String) (ip : Ip)
      → dial_context tools net addr ≡ some ip
      → (host : String) × (port : String) × (ips : List Ip) × (net.split_host_port addr
          ≡ some (host, port))
        × (net.lookup_ip_addr host ≡ some ips)
        × Memᴰ ip ips
        × (any is_private_ip ips ≡ false)
  unfolding dial_context
  dial_context-safe addr ip h = of_host (net.split_host_port addr) refl h
    where
      of_ips :
          (ips : List Ip)
          → dial_resolved tools net (some ips) ≡ some ip
          → Memᴰ ip ips × (any is_private_ip ips ≡ false)
      of_ips [] k = absurd (cc)
      of_ips (x ∷ ips) k = elim (Bool-cases (any is_private_ip (x ∷ ips))) [
        | inl blocked ↦ absurd (ground arith)
        | inr free ↦ (Memᴰ.head (ground arith), free)
      ]

      of_host :
          (o : Option (String × String))
          → net.split_host_port addr ≡ o
          → dial_host tools net o ≡ some ip
          → (host : String) × (port : String) × (ips : List Ip) × (net.split_host_port addr
              ≡ some (host, port))
            × (net.lookup_ip_addr host ≡ some ips)
            × Memᴰ ip ips
            × (any is_private_ip ips ≡ false)
      of_host none e k = absurd (cc)
      of_host (some (host, port)) e k = elim (Option-cases (net.lookup_ip_addr host)) [
        | inl missing ↦ absurd (ground arith)
        | inr (ips, found) ↦
            let (m, free) = of_ips ips (rw found at k) in (host, port, ips, e, found, m, free)
      ]

  abbrev pub is_valid_url : String → Bool
  is_valid_url url = not (is_some (validate_url tools net url))

  checked :
      (limit : ℕ) (url : String) (via : List String)
      → redirect_checker tools net limit url via ≡ true
      → (length via < limit) × (is_valid_url url ≡ true)
  unfolding redirect_checker
  checked limit url via h = (ground arith, ground arith)

  follow-safe_from :
      (limit : ℕ) (targets via : List String)
      → length via ≤ limit
      → all is_valid_url via ≡ true
      → (length (follow tools net limit targets via) ≤ limit)
        × (all is_valid_url (follow tools net limit targets via) ≡ true)
  unfolding follow
  follow-safe_from limit [] via h k = (h, k)
  follow-safe_from limit (url ∷ targets) via h k =
      elim (Bool-cases (redirect_checker tools net limit url via)) [
        | inr stop ↦ rw stop (h, k)
        | inl go ↦
            let (short, valid) = checked limit url via go in
            rw go (follow-safe_from limit targets (url ∷ via) (omega arith) (ground arith))
      ]

  -- For any chain of redirects that servers answer with, a client that starts at a valid URL makes
  -- at most `limit` requests, and each of them is for a valid URL.
  pub follow-safe :
      (limit : ℕ) (start : String) (targets : List String)
      → 0 < limit
      → validate_url tools net start ≡ none
      → (length (follow tools net limit targets (start ∷ [])) ≤ limit)
        × (all is_valid_url (follow tools net limit targets (start ∷ [])) ≡ true)
  follow-safe limit start targets pos ok =
      follow-safe_from limit targets (start ∷ []) (omega arith) (rw ok refl)
