-- ===== src/SafeNet/Intervals.antt =====
-- srv/safenet/safenet.go: the blocked IPv4 networks as intervals of addresses.
use native.Mathlib.Nat.{suc-mul, le-div_iff_mul-le, div-lt_iff_lt-mul}
use mathlib.Core.Path.{subst}
use feedreader.Prelude.{
  ℕ, ◌≡◌, refl, ap₂, Bool, true, false, List, [], ◌∷◌, nat_eq, ltb, leb, ◌+◌, ◌*◌, ◌/◌, ◌^◌, ◌<◌,
  ◌≤◌, ◌↔◌, suc, any, ◌&&◌, ◌||◌, and_true, arith,
}
use feedreader.SafeNet.Ranges.{
  v4, v6, IpNet, net4, net6, net_contains, private_ranges, is_private_ip, to4,
}

-- the number of the address a.b.c.d
abbrev pub quad : ℕ → ℕ → ℕ → ℕ → ℕ
quad a b c d = ((a * 256 + b) * 256 + c) * 256 + d

-- the first and the last address of each blocked block
abbrev pub blocked_intervals : List (ℕ × ℕ)
blocked_intervals =
    (quad 0 0 0 0, quad 0 255 255 255)
    ∷ (quad 10 0 0 0, quad 10 255 255 255)
    ∷ (quad 100 64 0 0, quad 100 127 255 255)
    ∷ (quad 127 0 0 0, quad 127 255 255 255)
    ∷ (quad 169 254 0 0, quad 169 254 255 255)
    ∷ (quad 172 16 0 0, quad 172 31 255 255)
    ∷ (quad 192 0 0 0, quad 192 0 0 255)
    ∷ (quad 192 0 2 0, quad 192 0 2 255)
    ∷ (quad 192 88 99 0, quad 192 88 99 255)
    ∷ (quad 192 168 0 0, quad 192 168 255 255)
    ∷ (quad 198 18 0 0, quad 198 19 255 255)
    ∷ (quad 198 51 100 0, quad 198 51 100 255)
    ∷ (quad 203 0 113 0, quad 203 0 113 255)
    ∷ (quad 224 0 0 0, quad 239 255 255 255)
    ∷ (quad 240 0 0 0, quad 255 255 255 255)
    ∷ (quad 255 255 255 255, quad 255 255 255 255)
    ∷ []

abbrev pub is_between : ℕ → ℕ × ℕ → Bool
is_between n (first, last) = leb first n && leb n last

-- the IPv4 networks are the blocks of the intervals, one for one
abbrev agree : List IpNet → List (ℕ × ℕ) → Bool
agree [] [] = true
agree [] (i ∷ is) = false
agree (net4 number size ∷ rs) [] = false
agree (net4 number size ∷ rs) ((first, last) ∷ is) =
    (ltb 0 size && (nat_eq (number * size) first && nat_eq (first + size) (last + 1)))
    && agree rs is
agree (net6 number size ∷ rs) is = agree rs is

block-interval :
    (n number size first last : ℕ)
    → (ltb 0 size && (nat_eq (number * size) first && nat_eq (first + size) (last + 1))) ≡ true
    → nat_eq (n / size) number ≡ is_between n (first, last)
block-interval n number size first last h =
    let pos : 0 < size = ground arith in
    let product : number * size ≡ first = ground arith in
    let lower : (number ≤ n / size) ↔ (first ≤ n) =
      subst (λ p. (number ≤ n / size) ↔ (p ≤ n)) product
        (le-div_iff_mul-le {k = size} {x = number} {y = n} pos) in
    let upper : (n / size < suc number) ↔ (n < last + 1) =
      subst (λ p. (n / size < suc number) ↔ (n < p)) (above number product)
        (div-lt_iff_lt-mul {k = size} {x = n} {y = suc number} pos) in
    ground (arith, lower, upper)
  where
    above : (m : ℕ) → m * size ≡ first → suc m * size ≡ last + 1
    above m e = ground (arith, suc-mul m size)

agree-any :
    (n : ℕ) (rs : List IpNet) (is : List (ℕ × ℕ))
    → agree rs is ≡ true
    → any (λ r. net_contains r (v4 n)) rs ≡ any (is_between n) is
agree-any n [] [] h = refl
agree-any n [] (i ∷ is) h = absurd (cc)
agree-any n (net4 number size ∷ rs) [] h = absurd (cc)
agree-any n (net4 number size ∷ rs) ((first, last) ∷ is) h =
    let (block, rest) = and_true _ (agree rs is) h in
    ap₂ ◌||◌ (block-interval n number size first last block) (agree-any n rs is rest)
agree-any n (net6 number size ∷ rs) is h = agree-any n rs is h

-- An IPv4 address is blocked exactly when it lies in one of the sixteen intervals from the first to
-- the last address of the blocks that `privateRanges` writes in CIDR notation.
pub is_private_ip-intervals : (n : ℕ) → is_private_ip (v4 n) ≡ any (is_between n) blocked_intervals
unfolding is_private_ip to4
is_private_ip-intervals n = agree-any n private_ranges blocked_intervals refl

-- An IPv4-mapped IPv6 address is blocked exactly when the IPv4 address inside is.
pub is_private_ip-mapped :
    (n : ℕ) → n < 2 ^ 32 → is_private_ip (v6 (65535 * 2 ^ 32 + n)) ≡ is_private_ip (v4 n)
unfolding is_private_ip
is_private_ip-mapped n h = rw (mapped n h) refl
  where
    mapped : (m : ℕ) → m < 2 ^ 32 → to4 (v6 (65535 * 2 ^ 32 + m)) ≡ to4 (v4 m)
    mapped m k = ground arith
