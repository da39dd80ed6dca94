-- ===== src/Strings.antt =====
-- What the server uses of Go's `strings`, `unicode` and `regexp`. Lower-casing a rune and compiling
-- a regular expression are not the repository's code: they are the fields of `TextTools`.
pub mod Laws
pub mod Numbers
use Prim.Native.Char.{Char, code}
use Prim.Native.String
use feedreader.Prelude.{String, Bool, true, false, Option, nat_eq, ◌&&◌, ◌||◌}

pub record TextTools : Type 0 where
  -- unicode.ToLower
  pub to_lower_rune : Char → Char
  -- regexp.Compile, with MatchString of the compiled expression; `none` is its error
  pub compile_regexp : String → Option (String → Bool)

-- strings.ToLower maps every rune
unfoldable pub to_lower : TextTools → String → String
to_lower tools String.[] = String.[]
to_lower tools (String.◌∷◌ c s) = String.◌∷◌ (tools.to_lower_rune c) (to_lower tools s)

-- strings.HasPrefix
unfoldable pub has_prefix : String → String → Bool
has_prefix text String.[] = true
has_prefix String.[] (String.◌∷◌ p prefix) = false
has_prefix (String.◌∷◌ c text) (String.◌∷◌ p prefix) =
    has_prefix text prefix && nat_eq (code c) (code p)

-- strings.Contains
unfoldable pub contains : String → String → Bool
unfolding has_prefix
contains String.[] part = has_prefix String.[] part
contains (String.◌∷◌ c text) part = has_prefix (String.◌∷◌ c text) part || contains text part
