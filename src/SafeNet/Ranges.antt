-- ===== src/SafeNet/Ranges.antt =====
-- srv/safenet/safenet.go: `privateRanges` and `isPrivateIP`.
use feedreader.Prelude.{
  ℕ, Bool, false, Option, none, some, List, [], ◌∷◌, nat_eq, ◌+◌, ◌*◌, ◌/◌, ◌%◌, ◌^◌, ◌-◌, any,
  if◌then◌else◌,
}

-- `net.IP`: an address of 4 or of 16 bytes, as a number
pub data Ip : Type 0 where
  v4 : ℕ → Ip
  v6 : ℕ → Ip

-- To4: an address of 16 bytes below ::ffff:0:0/96 is one of 4 bytes
unfoldable pub to4 : Ip → Option Ip
to4 (v4 n) = some (v4 n)
to4 (v6 n) = if nat_eq (n / 2 ^ 32) 65535 then some (v4 (n % 2 ^ 32)) else none

-- `net.IPNet`: the number under the mask, and the size of the block that the mask leaves open
pub data IpNet : Type 0 where
  net4 : ℕ → ℕ → IpNet
  net6 : ℕ → ℕ → IpNet

abbrev pub cidr4 : ℕ → ℕ → ℕ → ℕ → ℕ → IpNet
cidr4 a b c d bits =
    net4 ((((a * 256 + b) * 256 + c) * 256 + d) / 2 ^ (32 - bits)) (2 ^ (32 - bits))

-- an IPv6 network by its first 16 bits and its last
abbrev pub cidr6 : ℕ → ℕ → ℕ → IpNet
cidr6 first last bits = net6 ((first * 2 ^ 112 + last) / 2 ^ (128 - bits)) (2 ^ (128 - bits))

-- Contains: the same family, and the same number under the mask
abbrev pub net_contains : IpNet → Ip → Bool
net_contains (net4 number size) (v4 n) = nat_eq (n / size) number
net_contains (net4 number size) (v6 n) = false
net_contains (net6 number size) (v4 n) = false
net_contains (net6 number size) (v6 n) = nat_eq (n / size) number

abbrev pub private_ranges : List IpNet
private_ranges =
    cidr4 0 0 0 0 8
    ∷ cidr4 10 0 0 0 8
    ∷ cidr4 100 64 0 0 10
    ∷ cidr4 127 0 0 0 8
    ∷ cidr4 169 254 0 0 16
    ∷ cidr4 172 16 0 0 12
    ∷ cidr4 192 0 0 0 24
    ∷ cidr4 192 0 2 0 24
    ∷ cidr4 192 88 99 0 24
    ∷ cidr4 192 168 0 0 16
    ∷ cidr4 198 18 0 0 15
    ∷ cidr4 198 51 100 0 24
    ∷ cidr4 203 0 113 0 24
    ∷ cidr4 224 0 0 0 4
    ∷ cidr4 240 0 0 0 4
    ∷ cidr4 255 255 255 255 32
    ∷ cidr6 0 1 128
    ∷ cidr6 64512 0 7
    ∷ cidr6 65152 0 10
    ∷ cidr6 65280 0 8
    ∷ []

abbrev pub normalize : Option Ip → Ip → Ip
normalize none ip = ip
normalize (some v) ip = v

unfoldable pub is_private_ip : Ip → Bool
unfolding to4
is_private_ip ip = any (λ r. net_contains r (normalize (to4 ip) ip)) private_ranges
