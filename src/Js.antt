-- ===== src/Js.antt =====
-- What the code uses of JavaScript's texts: `split(',')`, `startsWith` and tests by a regular
-- expression are written out; what is not is a parameter.
mod Tests
use Prim.Native.Char.{Char, code}
use Prim.Native.String.{String}
use protect_platform.Prelude.{
  eqb, if◌then◌else◌, none, [], ◌∷◌, ◌&&◌, ◌==◌, true, leb, some, List, Option, Bool, suc, ℕ,
}

-- What is not written out, with node's SHA-256.
pub record Js : Type 0 where
  pub trim : String → String
  pub lower_case : String → String
  -- `replace(/\s+/g, ' ')`
  pub collapse : String → String
  pub size : String → ℕ
  -- `slice(0, n)`
  pub slice : ℕ → String → String
  pub sha256_hex : String → String
  -- a number as a text
  pub decimal : ℕ → String

-- Put a character in front of the first of the texts.
abbrev pub prepend : Char → List String → List String
prepend c [] = String.◌∷◌ c String.[] ∷ []
prepend c (s ∷ rest) = String.◌∷◌ c s ∷ rest

-- `s.split(',')`
unfoldable pub split_commas : String → List String
split_commas String.[] = String.[] ∷ []
split_commas (String.◌∷◌ c s) =
    let rest = split_commas s in if eqb (code c) b',' then "" ∷ rest else prepend c rest

abbrev pub is_empty : String → Bool
is_empty s = s == ""

-- `s.startsWith(prefix) ? s.slice(prefix.length) : null`
unfoldable pub strip_prefix : String → String → Option String
strip_prefix String.[] s = some s
strip_prefix (String.◌∷◌ c p) String.[] = none
strip_prefix (String.◌∷◌ c p) (String.◌∷◌ d s) =
    let rest = strip_prefix p s in if eqb (code c) (code d) then rest else none

abbrev is_digit : ℕ → Bool
is_digit c = leb b'0' c && leb c b'9'

-- `/^\d+$/` for the empty text too, and the length.
unfoldable pub all_digits : String → Bool
all_digits String.[] = true
all_digits (String.◌∷◌ c s) = is_digit (code c) && all_digits s

unfoldable pub size_of : String → ℕ
size_of String.[] = 0
size_of (String.◌∷◌ c s) = suc (size_of s)

-- `/^\d{17,20}$/`
unfoldable pub is_snowflake : String → Bool
unfolding all_digits size_of
is_snowflake s = all_digits s && leb 17 (size_of s) && leb (size_of s) 20

-- `s.split(c)`, for the code of a character.
unfoldable pub split_on : ℕ → String → List String
split_on c String.[] = String.[] ∷ []
split_on c (String.◌∷◌ x s) =
    let rest = split_on c s in if eqb (code x) c then "" ∷ rest else prepend x rest
