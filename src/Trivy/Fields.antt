-- ===== src/Trivy/Fields.antt =====
-- Reading the Go source of Trivy's rules by patterns.
use socket_scan_patterns.Gitleaks.Fields.{quoted_item}
use socket_scan_patterns.Prelude.{
  ℕ, Bool, true, false, not, ◌&&◌, ◌||◌, List, [], ◌∷◌, ◌++◌, Option, none, some, ◌==◌,
  if◌then◌else◌, map, keep,
}
use socket_scan_patterns.Regex.Notation.{◌⨟◌, ◌⊕◌, word, spaces, any, maybe}
use socket_scan_patterns.Regex.{
  Rx, Match, unit, star, lazy, capture, text_start, text_end, line_start, line_end, ahead, exec,
  all_matches, group_text, exec_group,
}
use socket_scan_patterns.Text.Order.{sort_texts}
use socket_scan_patterns.Text.{Text, codes, is_letter, is_digit, is_upper, trim}
use socket_scan_patterns.TextSet.{get, put}

abbrev is_word : ℕ → Bool
is_word c = is_letter c || is_digit c || c == b'_'

-- /^\s*([A-Za-z_][A-Za-z0-9_]*)\s*=\s*`([^`]*)`\s*$/gm
abbrev fragment : Rx
fragment =
    line_start
    ⨟ spaces
    ⨟ capture 1 (unit (λ c. is_letter c || c == b'_') ⨟ star (unit is_word))
    ⨟ spaces
    ⨟ word (codes "=")
    ⨟ spaces
    ⨟ word (codes "`")
    ⨟ capture 2 (star (unit (λ c. not (c == b'`'))))
    ⨟ word (codes "`")
    ⨟ spaces
    ⨟ line_end

-- /^\s*(Category[A-Za-z0-9_]*)\s*=\s*types\.SecretRuleCategory\("([^"]*)"\)/gm
abbrev category : Rx
category =
    line_start
    ⨟ spaces
    ⨟ capture 1 (word (codes "Category") ⨟ star (unit is_word))
    ⨟ spaces
    ⨟ word (codes "=")
    ⨟ spaces
    ⨟ word (codes "types.SecretRuleCategory(\"")
    ⨟ capture 2 (star (unit (λ c. not (c == b'"'))))
    ⨟ word (codes "\")")

-- the loop that sets a map's entries from groups 1 and 2 of each match
abbrev pairs_of : List Match → List (Text × Text) → List (Text × Text)
pairs_of [] m = m
pairs_of (x ∷ xs) m = pairs_of xs (put (group_text 1 x) (group_text 2 x) m)

-- `readTrivyRegexFragments`
unfoldable pub read_trivy_regex_fragments : Text → List (Text × Text)
unfolding all_matches
read_trivy_regex_fragments source = pairs_of (all_matches fragment source) []

-- `readTrivyCategories`
unfoldable pub read_trivy_categories : Text → List (Text × Text)
unfolding all_matches
read_trivy_categories source = pairs_of (all_matches category source) []

-- /^\s*FIELD:\s*([\s\S]*?),?\s*$(?=\n\s*(?:[A-Z][A-Za-z]*:|\}))/m
abbrev field_of : Text → Rx
field_of field =
    line_start
    ⨟ spaces
    ⨟ word field
    ⨟ word (codes ":")
    ⨟ spaces
    ⨟ capture 1 (lazy any)
    ⨟ maybe (word (codes ","))
    ⨟ spaces
    ⨟ line_end
    ⨟ ahead (
        word (codes "\n")
        ⨟ spaces
        ⨟ ((unit is_upper ⨟ star (unit is_letter) ⨟ word (codes ":")) ⊕ word (codes "}")))

abbrev trimmed : Option Text → Option Text
trimmed none = none
trimmed (some t) = some (trim t)

-- `readTrivyField`
unfoldable pub read_trivy_field : Text → Text → Option Text
unfolding exec_group
read_trivy_field body field = trimmed (exec_group 1 (field_of field) body)

-- /^"([^"]*)"/
abbrev quoted : Rx
quoted =
    text_start
    ⨟ word (codes "\"")
    ⨟ capture 1 (star (unit (λ c. not (c == b'"'))))
    ⨟ word (codes "\"")

unfoldable pub exec_truthy : Rx → Option Text → Option Text
unfolding exec_group
exec_truthy r none = none
exec_truthy r (some []) = none
exec_truthy r (some (c ∷ cs)) = exec_group 1 r (c ∷ cs)

-- `readTrivyQuotedField`
unfoldable pub read_trivy_quoted_field : Text → Text → Option Text
read_trivy_quoted_field body field = exec_truthy quoted (read_trivy_field body field)

-- /Keywords:\s*\[\]string\{([\s\S]*?)\}/
abbrev keywords_list : Rx
keywords_list =
    word (codes "Keywords:")
    ⨟ spaces
    ⨟ word (codes "[]string{")
    ⨟ capture 1 (lazy any)
    ⨟ word (codes "}")

-- `readTrivyKeywords`
unfoldable pub read_trivy_keywords : Text → List Text
unfolding exec_group all_matches
read_trivy_keywords body = elim (exec_group 1 keywords_list body) [
  | none ↦ []
  | some items ↦ sort_texts (map (group_text 1) (all_matches quoted_item items))
]

-- /^fmt\.Sprintf\(\s*`([\s\S]*?)`\s*,\s*([\s\S]*)\)$/
abbrev sprintf : Rx
sprintf =
    text_start
    ⨟ word (codes "fmt.Sprintf(")
    ⨟ spaces
    ⨟ word (codes "`")
    ⨟ capture 1 (lazy any)
    ⨟ word (codes "`")
    ⨟ spaces
    ⨟ word (codes ",")
    ⨟ spaces
    ⨟ capture 2 (star any)
    ⨟ word (codes ")")
    ⨟ text_end

-- /^`([\s\S]*)`$/
abbrev raw_string : Rx
raw_string = text_start ⨟ word (codes "`") ⨟ capture 1 (star any) ⨟ word (codes "`") ⨟ text_end

abbrev onto_first : ℕ → List Text → List Text
onto_first c [] = (c ∷ []) ∷ []
onto_first c (t ∷ ts) = (c ∷ t) ∷ ts

-- `s.split(',')`
unfoldable pub split_commas : Text → List Text
split_commas [] = [] ∷ []
split_commas (c ∷ cs) =
    let rest = split_commas cs in if c == b',' then [] ∷ rest else onto_first c rest

abbrev is_nonempty : Text → Bool
is_nonempty [] = false
is_nonempty (c ∷ cs) = true

-- the text for one `%s`: nothing where the arguments ran out or name no fragment
abbrev pub fragment_text : List (Text × Text) → List Text → Text
fragment_text fragments [] = []
fragment_text fragments (name ∷ names) = elim (get name fragments) [ none ↦ [] | some t ↦ t ]

abbrev pub next_args : List Text → List Text
next_args [] = []
next_args (name ∷ names) = names

-- `format.replace(/%s/g, …)` with the arguments that are left
unfoldable pub fill : List (Text × Text) → Text → List Text → Text
fill fragments [] args = []
fill fragments (a ∷ []) args = a ∷ []
fill fragments (a ∷ b ∷ s) args =
    let after = fill fragments s (next_args args) in
    let rest = fill fragments (b ∷ s) args in
    if a == b'%' && b == b's' then fragment_text fragments args ++ after else a ∷ rest

-- the names among the arguments of `fmt.Sprintf`
abbrev pub names_of : Text → List Text
names_of args = keep is_nonempty (map trim (split_commas args))

-- `resolveTrivyRegex`
unfoldable pub resolve_trivy_regex : Text → List (Text × Text) → Option Text
unfolding exec exec_group
resolve_trivy_regex expression fragments = elim (exec sprintf (trim expression)) [
  | some m ↦ some (fill fragments (group_text 1 m) (names_of (group_text 2 m)))
  | none ↦ exec_group 1 raw_string (trim expression)
]

-- /^MustCompile(?:WithoutWordPrefix)?\(([\s\S]*)\)$/
abbrev must_compile : Rx
must_compile =
    text_start
    ⨟ word (codes "MustCompile")
    ⨟ maybe (word (codes "WithoutWordPrefix"))
    ⨟ word (codes "(")
    ⨟ capture 1 (star any)
    ⨟ word (codes ")")
    ⨟ text_end

abbrev pub resolve_truthy : List (Text × Text) → Option Text → Option Text
resolve_truthy fragments none = none
resolve_truthy fragments (some []) = none
resolve_truthy fragments (some (c ∷ cs)) = resolve_trivy_regex (c ∷ cs) fragments

-- `readTrivyCompiledPattern`
unfoldable pub read_trivy_compiled_pattern : Text → Text → List (Text × Text) → Option Text
read_trivy_compiled_pattern body field fragments =
    resolve_truthy fragments (exec_truthy must_compile (read_trivy_field body field))
