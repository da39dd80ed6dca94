-- ===== src/Strings/Numbers.antt =====
-- strconv.Atoi on a 64-bit platform, and strings.TrimSpace as a test for a blank text.
use Prim.Native.Char.{code}
use feedreader.Prelude.{
  ℕ, zero, suc, String, Bool, true, Option, none, some, nat_eq, leb, ltb, ◌+◌, ◌-◌, ◌*◌, ◌^◌, ◌&&◌,
  ◌||◌, if◌then◌else◌,
}
use feedreader.Prelude.Int.{ℤ, pos, negsuc}

abbrev pub is_digit : ℕ → Bool
is_digit c = leb b'0' c && leb c b'9'

-- the number that a text of digits stands for, behind the digits read so far
unfoldable pub digits_value : ℕ → String → Option ℕ
digits_value acc String.[] = some acc
digits_value acc (String.◌∷◌ c s) =
    let rest = digits_value (acc * 10 + (code c - b'0')) s in
    if is_digit (code c) then rest else none

-- at least one digit
abbrev pub unsigned : String → Option ℕ
unsigned String.[] = none
unsigned (String.◌∷◌ c s) = digits_value 0 (String.◌∷◌ c s)

abbrev pub positive : Option ℕ → Option ℤ
positive none = none
positive (some n) = if ltb n (2 ^ 63) then some (pos n) else none

abbrev pub negate : ℕ → ℤ
negate zero = pos zero
negate (suc n) = negsuc n

abbrev pub negative : Option ℕ → Option ℤ
negative none = none
negative (some n) = if leb n (2 ^ 63) then some (negate n) else none

-- `none` is the error
unfoldable pub atoi : String → Option ℤ
unfolding digits_value
atoi String.[] = none
atoi (String.◌∷◌ c s) =
    if nat_eq (code c) b'-'
    then negative (unsigned s)
    else if nat_eq (code c) b'+'
    then positive (unsigned s)
    else positive (unsigned (String.◌∷◌ c s))

-- unicode.IsSpace
abbrev pub is_space : ℕ → Bool
is_space c =
    (leb 9 c && leb c 13)
    || (nat_eq c 32 || nat_eq c 0x85 || nat_eq c 0xa0 || nat_eq c 0x1680)
    || (leb 0x2000 c && leb c 0x200a)
    || (nat_eq c 0x2028 || nat_eq c 0x2029 || nat_eq c 0x202f || nat_eq c 0x205f || nat_eq c 0x3000)

-- `strings.TrimSpace(s) == ""`
unfoldable pub is_blank : String → Bool
is_blank String.[] = true
is_blank (String.◌∷◌ c s) = is_space (code c) && is_blank s
