-- ===== src/Regex/Notation.antt =====
-- The pieces from which the patterns of the source are put together.
use socket_scan_patterns.Prelude.{ℕ, zero, suc, Bool, true, not, ◌||◌, [], ◌∷◌, ◌==◌}
use socket_scan_patterns.Regex.{Rx, empty, unit, seq, alt, star}
use socket_scan_patterns.Text.{Text, is_space}

infixr 60 ◌⨟◌
infixr 55 ◌⊕◌
-- juxtaposition, and `|`
abbrev pub ◌⨟◌ : Rx → Rx → Rx
r ⨟ s = seq r s

abbrev pub ◌⊕◌ : Rx → Rx → Rx
r ⊕ s = alt r s

-- the code units of a text, one after the other
abbrev pub word : Text → Rx
word [] = empty
word (c ∷ cs) = seq (unit (λ d. c == d)) (word cs)

-- `\s*`
abbrev pub spaces : Rx
spaces = star (unit is_space)

-- `[\s\S]`
abbrev pub any : Rx
any = unit (λ c. true)

-- `r+`, `r?`
abbrev pub plus : Rx → Rx
plus r = seq r (star r)

abbrev pub maybe : Rx → Rx
maybe r = alt r empty

abbrev pub is_line_break : ℕ → Bool
is_line_break c = c == 10 || c == 13 || c == 0x2028 || c == 0x2029

-- `(?:[^Q\\]|\\.)*`, the body of a literal in quotes Q
abbrev pub quoted_body : ℕ → Rx
quoted_body quote = star (
    unit (λ c. not (c == quote || c == b'\\'))
    ⊕ (unit (λ c. c == b'\\') ⨟ unit (λ c. not (is_line_break c))))

-- `r{n}` and `r{0,n}`
abbrev pub times : ℕ → Rx → Rx
times zero r = empty
times (suc n) r = r ⨟ times n r

abbrev pub at_most : ℕ → Rx → Rx
at_most zero r = empty
at_most (suc n) r = maybe (r ⨟ at_most n r)
