-- ===== src/Text.antt =====
-- Strings of the program: ECMAScript strings are sequences of UTF-16 code units, so a text is a
-- list of numbers, and each function below is the String method named above it.
pub mod Order
pub mod Equality
pub mod Lines
pub mod Numbers
use Prim.Native.Char.{code}
use Prim.Native.String.{String}
use socket_scan_patterns.Prelude.{
  ℕ, suc, ◌<◌, Bool, true, false, ◌&&◌, ◌||◌, List, [], ◌∷◌, ◌++◌, Option, none, some, ◌==◌, leb,
  if◌then◌else◌,
}

abbrev pub Text : Type 0
Text = List ℕ

-- a literal of the source; all of them are ASCII, where code points and code units agree
abbrev pub codes : String → Text
codes String.[] = []
codes (String.◌∷◌ c s) = code c ∷ codes s

-- `a === b`
unfoldable pub text_eq : Text → Text → Bool
text_eq [] [] = true
text_eq (a ∷ as') (b ∷ bs) = a == b && text_eq as' bs
text_eq _ _ = false

-- `s.startsWith(p)`, written `starts_with p s`
unfoldable pub starts_with : Text → Text → Bool
starts_with [] s = true
starts_with (p ∷ ps) [] = false
starts_with (p ∷ ps) (c ∷ cs) = p == c && starts_with ps cs

-- `s.endsWith(p)`, written `ends_with p s`
unfoldable pub ends_with : Text → Text → Bool
unfolding text_eq
ends_with p [] = text_eq p []
ends_with p (c ∷ cs) = text_eq p (c ∷ cs) || ends_with p cs

-- `s.includes(p)`, written `includes p s`
unfoldable pub includes : Text → Text → Bool
unfolding starts_with
includes p [] = starts_with p []
includes p (c ∷ cs) = starts_with p (c ∷ cs) || includes p cs

-- what stands in `s` from the first `p` on: `s.slice(s.indexOf(p))`, and `none` for the index -1
unfoldable pub from_first : Text → Text → Option Text
unfolding starts_with
from_first p [] = if starts_with p [] then some [] else none
from_first p (c ∷ cs) =
    let rest = from_first p cs in if starts_with p (c ∷ cs) then some (c ∷ cs) else rest

-- the white space of `trim` and of `\s`
unfoldable pub is_space : ℕ → Bool
is_space c =
    (leb 9 c && leb c 13)
    || c == 32
    || c == 0xa0
    || c == 0x1680
    || (leb 0x2000 c && leb c 0x200a)
    || c == 0x2028
    || c == 0x2029
    || c == 0x202f
    || c == 0x205f
    || c == 0x3000
    || c == 0xfeff

-- `s.trimStart()`
unfoldable pub trim_start : Text → Text
unfolding is_space
trim_start [] = []
trim_start (c ∷ cs) = let rest = trim_start cs in if is_space c then rest else c ∷ cs

trim_end_onto : Bool → ℕ → Text → Text
trim_end_onto true c [] = []
trim_end_onto _ c rest = c ∷ rest

-- `s.trimEnd()`
unfoldable pub trim_end : Text → Text
unfolding is_space trim_end_onto
trim_end [] = []
trim_end (c ∷ cs) = trim_end_onto (is_space c) c (trim_end cs)

-- `s.trim()`
unfoldable pub trim : Text → Text
unfolding trim_start trim_end
trim s = trim_start (trim_end s)

abbrev pub is_lower : ℕ → Bool
is_lower c = leb b'a' c && leb c b'z'

abbrev pub is_upper : ℕ → Bool
is_upper c = leb b'A' c && leb c b'Z'

abbrev pub is_digit : ℕ → Bool
is_digit c = leb b'0' c && leb c b'9'

abbrev pub is_letter : ℕ → Bool
is_letter c = is_lower c || is_upper c

-- `parts.join(sep)`, written `join sep parts`
unfoldable pub join : Text → List Text → Text
join sep [] = []
join sep (p ∷ []) = p
join sep (p ∷ q ∷ ps) = p ++ (sep ++ join sep (q ∷ ps))

-- `.replace(/\s+/g, ' ')`, with whether the last code unit was a space
unfoldable pub collapse_from : Bool → Text → Text
unfolding is_space
collapse_from spaced [] = []
collapse_from spaced (c ∷ cs) =
    let inside = collapse_from true cs in
    let outside = collapse_from false cs in
    if is_space c then (if spaced then inside else b' ' ∷ inside) else c ∷ outside
