-- ===== src/Gitleaks/Fields.antt =====
-- Reading one field of a `[[rules]]` block by a pattern.
use socket_scan_patterns.Prelude.{
  ℕ, ◌&&◌, List, [], ◌∷◌, Option, none, some, ◌==◌, if◌then◌else◌, map,
}
use socket_scan_patterns.Regex.Notation.{◌⨟◌, word, spaces, any, plus, maybe, quoted_body}
use socket_scan_patterns.Regex.{
  Rx, unit, lazy, capture, line_start, line_end, exec, exec_group, all_matches, group_text,
}
use socket_scan_patterns.Schema.{Decimal}
use socket_scan_patterns.Text.Order.{sort_texts}
use socket_scan_patterns.Text.{Text, codes, is_digit}
use mathlib.Core.List.{reverse}

-- /^\s*\[rules\./m
abbrev subtable : Rx
subtable = line_start ⨟ spaces ⨟ word (codes "[rules.")

-- `block.split(/^\s*\[rules\./m)[0]`
unfoldable pub head_of : Text → Text
head_of block = elim (exec subtable block) [ none ↦ block | some m ↦ reverse m.start.before ]

-- /^\s*KEY\s*=\s*'''([\s\S]*?)'''\s*$/m
abbrev literal : Text → Rx
literal key =
    line_start
    ⨟ spaces
    ⨟ word key
    ⨟ spaces
    ⨟ word (codes "=")
    ⨟ spaces
    ⨟ word (codes "'''")
    ⨟ capture 1 (lazy any)
    ⨟ word (codes "'''")
    ⨟ spaces
    ⨟ line_end

-- /^\s*KEY\s*=\s*"((?:[^"\\]|\\.)*)"\s*$/m
abbrev basic : Text → Rx
basic key =
    line_start
    ⨟ spaces
    ⨟ word key
    ⨟ spaces
    ⨟ word (codes "=")
    ⨟ spaces
    ⨟ word (codes "\"")
    ⨟ capture 1 (quoted_body b'"')
    ⨟ word (codes "\"")
    ⨟ spaces
    ⨟ line_end

-- `.replace(/\\C/g, 'C')` for the code unit C
unfoldable pub unescape : ℕ → Text → Text
unescape c [] = []
unescape c (a ∷ []) = a ∷ []
unescape c (a ∷ b ∷ s) =
    let after = unescape c s in
    let rest = unescape c (b ∷ s) in if a == b'\\' && b == c then c ∷ after else a ∷ rest

-- `readGitleaksScalar`
unfoldable pub read_gitleaks_scalar : Text → Text → Option Text
unfolding head_of exec_group unescape
read_gitleaks_scalar block key = elim (exec_group 1 (literal key) (head_of block)) [
  | some value ↦ some value
  | none ↦ elim (exec_group 1 (basic key) (head_of block)) [
    | some value ↦ some (unescape b'\\' (unescape b'"' value))
    | none ↦ none
  ]
]

-- /^\s*keywords\s*=\s*\[([\s\S]*?)\]/m
abbrev keywords_list : Rx
keywords_list =
    line_start
    ⨟ spaces
    ⨟ word (codes "keywords")
    ⨟ spaces
    ⨟ word (codes "=")
    ⨟ spaces
    ⨟ word (codes "[")
    ⨟ capture 1 (lazy any)
    ⨟ word (codes "]")

-- /"((?:[^"\\]|\\.)*)"/g
abbrev pub quoted_item : Rx
quoted_item = word (codes "\"") ⨟ capture 1 (quoted_body b'"') ⨟ word (codes "\"")

-- `readGitleaksKeywords`
unfoldable pub read_gitleaks_keywords : Text → List Text
unfolding head_of exec_group all_matches
read_gitleaks_keywords block = elim (exec_group 1 keywords_list (head_of block)) [
  | none ↦ []
  | some items ↦ sort_texts (map (group_text 1) (all_matches quoted_item items))
]

-- /^\s*KEY\s*=\s*([0-9]+(?:\.[0-9]+)?)\s*$/m
abbrev number : Text → Rx
number key =
    line_start
    ⨟ spaces
    ⨟ word key
    ⨟ spaces
    ⨟ word (codes "=")
    ⨟ spaces
    ⨟ capture 1 (plus (unit is_digit) ⨟ maybe (word (codes ".") ⨟ plus (unit is_digit)))
    ⨟ spaces
    ⨟ line_end

-- the digits before and after the point of a literal
unfoldable pub decimal : Text → Decimal
decimal [] = record { whole = []; fraction = [] }
decimal (c ∷ cs) =
    let later = decimal cs in
    if c == b'.'
    then record { whole = []; fraction = cs }
    else record { whole = c ∷ later.whole; fraction = later.fraction }

-- `readGitleaksNumber`
unfoldable pub read_gitleaks_number : Text → Text → Option Decimal
unfolding head_of exec_group decimal
read_gitleaks_number block key = elim (exec_group 1 (number key) (head_of block)) [
  | none ↦ none
  | some digits ↦ some (decimal digits)
]
