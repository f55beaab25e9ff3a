-- ===== src/SkillSpector/Language.antt =====
-- import-skillspector/language.mts: the patterns of the language rules.
use socket_scan_patterns.Failure.{
  Result, ok, err, missing_extensions, no_literal_patterns, no_literal_rules, no_language_rules,
  unsupported_expression, ◌>>=◌,
}
use socket_scan_patterns.Prelude.{
  Bool, true, false, not, ◌&&◌, ◌||◌, List, [], ◌∷◌, ◌++◌, Option, none, some, ◌==◌, ◌-◌,
  if◌then◌else◌, length, map, take,
}
use socket_scan_patterns.Regex.Notation.{◌⨟◌, ◌⊕◌, word, spaces, any, plus, maybe, quoted_body}
use socket_scan_patterns.Regex.{
  Rx, Match, unit, star, lazy, capture, line_start, exec_group, all_matches, group_of, group_text,
}
use socket_scan_patterns.Schema.{PatternSeverity, critical, high, medium, low}
use socket_scan_patterns.TextSet.{get, put}
use socket_scan_patterns.Text.{Text, codes, join, text_eq, is_lower, is_upper, is_digit, is_space}

-- `SkillSpectorPattern`; a confidence is the text of its literal
pub record SkillSpectorPattern : Type 0 where
  pub code : Text
  pub confidence : Text
  pub path_regex_source : Option Text
  pub severity : Option PatternSeverity
  pub source : Text
  pub title : Option Text

abbrev not_newline : Rx
not_newline = unit (λ c. not (c == b'\n'))

-- /^NAME[^\n]*= \{([\s\S]*?)^\}/m
abbrev table_block : Text → Rx
table_block name =
    line_start
    ⨟ word name
    ⨟ star not_newline
    ⨟ word (codes "= {")
    ⨟ capture 1 (lazy any)
    ⨟ line_start
    ⨟ word (codes "}")

-- /"\.([a-z0-9]+)":\s*"([a-z]+)"/g
abbrev extension_entry : Rx
extension_entry =
    word (codes "\".")
    ⨟ capture 1 (plus (unit (λ c. is_lower c || is_digit c)))
    ⨟ word (codes "\":")
    ⨟ spaces
    ⨟ word (codes "\"")
    ⨟ capture 2 (plus (unit is_lower))
    ⨟ word (codes "\"")

-- /^ {4}"([a-z]+)": \[([\s\S]*?)^ {4}\],/gm
abbrev language_list : Rx
language_list =
    line_start
    ⨟ word (codes "    \"")
    ⨟ capture 1 (plus (unit is_lower))
    ⨟ word (codes "\": [")
    ⨟ capture 2 (lazy any)
    ⨟ line_start
    ⨟ word (codes "    ],")

-- /^ {8}\(\s*"([A-Z]+[0-9]+)",\s*"([^"\n]+)",\s*Severity\.(CRITICAL|…),\s*\[([\s\S]*?)\],\s*\),/gm
abbrev language_rule : Rx
language_rule =
    line_start
    ⨟ word (codes "        (")
    ⨟ spaces
    ⨟ word (codes "\"")
    ⨟ capture 1 (plus (unit is_upper) ⨟ plus (unit is_digit))
    ⨟ word (codes "\",")
    ⨟ spaces
    ⨟ word (codes "\"")
    ⨟ capture 2 (plus (unit (λ c. not (c == b'"' || c == b'\n'))))
    ⨟ word (codes "\",")
    ⨟ spaces
    ⨟ word (codes "Severity.")
    ⨟ capture 3
        (word (codes "CRITICAL") ⊕ word (codes "HIGH") ⊕ word (codes "LOW") ⊕ word (codes "MEDIUM"))
    ⨟ word (codes ",")
    ⨟ spaces
    ⨟ word (codes "[")
    ⨟ capture 4 (lazy any)
    ⨟ word (codes "],")
    ⨟ spaces
    ⨟ word (codes "),")

-- /^ {8}\(/gm
abbrev rule_opener : Rx
rule_opener = line_start ⨟ word (codes "        (")

-- `(0(?:\.\d+)?|1(?:\.0+)?)` as group 5
abbrev unit_number : Rx
unit_number = capture 5 (
    (word (codes "0") ⨟ maybe (word (codes ".") ⨟ plus (unit is_digit)))
    ⊕ (word (codes "1") ⨟ maybe (word (codes ".") ⨟ plus (unit (λ c. c == b'0')))))

-- the pattern `tuple` of `parseSkillSpectorLanguageTuples`
abbrev language_tuple : Rx
language_tuple =
    word (codes "(")
    ⨟ spaces
    ⨟ word (codes "r")
    ⨟ ((word (codes "\"\"\"") ⨟ capture 1 (lazy any) ⨟ word (codes "\"\"\""))
        ⊕ (word (codes "'''") ⨟ capture 2 (lazy any) ⨟ word (codes "'''"))
        ⊕ (word (codes "\"") ⨟ capture 3 (quoted_body b'"') ⨟ word (codes "\""))
        ⊕ (word (codes "'") ⨟ capture 4 (quoted_body b'\'') ⨟ word (codes "'")))
    ⨟ spaces
    ⨟ word (codes ",")
    ⨟ spaces
    ⨟ unit_number
    ⨟ spaces
    ⨟ maybe (word (codes ","))
    ⨟ spaces
    ⨟ word (codes ")")

-- `a ?? b`
abbrev or_group : Option Text → Option Text → Option Text
or_group none t = t
or_group (some s) t = some s

abbrev text_or_empty : Option Text → Text
text_or_empty none = []
text_or_empty (some t) = t

abbrev tuple_source : Match → Text
tuple_source m =
    text_or_empty
      (or_group (group_of 1 m) (or_group (group_of 2 m) (or_group (group_of 3 m) (group_of 4 m))))

-- what stands between the matches: `source.replace(tuple, '')`
abbrev between : Text → List Match → Text
between rest [] = rest
between rest (m ∷ ms) = take (length rest - length m.start.rest) rest ++ between m.end.rest ms

abbrev is_blank : Text → Bool
is_blank [] = true
is_blank (c ∷ cs) = is_space c && is_blank cs

-- whether `.replace(/[\s,]/g, '')` leaves nothing
abbrev only_commas : Text → Bool
only_commas t = is_blank (map (λ c. if c == b',' then b' ' else c) t)

-- `parseSkillSpectorLanguageTuples`: confidence and source
unfoldable pub parse_language_tuples : Text → Result (List (Text × Text))
unfolding all_matches
parse_language_tuples source =
    let matches = all_matches language_tuple source in
    if only_commas (between source matches)
    then ok (map (λ m. (group_text 5 m, tuple_source m)) matches)
    else err unsupported_expression

-- `skillSpectorLanguageSeverity`, of the words that its pattern allows
unfoldable pub skill_spector_language_severity : Text → PatternSeverity
unfolding text_eq
skill_spector_language_severity value =
    if text_eq value (codes "HIGH")
    then high
    else if text_eq value (codes "MEDIUM")
    then medium
    else if text_eq value (codes "LOW")
    then low
    else critical

abbrev listed : Option (List Text) → List Text
listed none = []
listed (some values) = values

-- `extensions`
abbrev add_extension : List Match → List (Text × List Text) → List (Text × List Text)
add_extension [] m = m
add_extension (entry ∷ entries) m =
    let language = group_text 2 entry in
    let values = listed (get language m) in
    add_extension entries (put language (values ++ group_text 1 entry ∷ []) m)

-- the patterns of a rule
abbrev rule_patterns : Match → Text → List (Text × Text) → List SkillSpectorPattern
rule_patterns rule path_regex_source = map λ (confidence, source). record {
  code = group_text 1 rule;
  confidence = confidence;
  path_regex_source = some path_regex_source;
  severity = some (skill_spector_language_severity (group_text 3 rule));
  source = source;
  title = some (group_text 2 rule);
}

abbrev nonempty_patterns : Text → List (Text × Text) → Result (List (Text × Text))
nonempty_patterns code [] = err (no_literal_patterns code)
nonempty_patterns code (t ∷ ts) = ok (t ∷ ts)

-- the loop over the rules of a language
unfoldable pub rules_patterns : List Match → Text → Result (List SkillSpectorPattern)
rules_patterns [] path_regex_source = ok []
rules_patterns (rule ∷ rules) path_regex_source = do
  tuples ← parse_language_tuples (group_text 4 rule)
  patterns ← nonempty_patterns (group_text 1 rule) tuples
  rest ← rules_patterns rules path_regex_source
  ok (rule_patterns rule path_regex_source patterns ++ rest)

abbrev is_nil {ℓ} : {A : Type ℓ} → List A → Bool
is_nil [] = true
is_nil (x ∷ xs) = false

-- the body of the loop over the languages, for its suffixes
unfoldable pub language_patterns : Match → Option (List Text) → Result (List SkillSpectorPattern)
unfolding all_matches
language_patterns language none = err (missing_extensions (group_text 1 language))
language_patterns language (some []) = err (missing_extensions (group_text 1 language))
language_patterns language (some (s ∷ ss)) = do
  let path_regex_source = codes "\\.(?:" ++ (join (codes "|") (s ∷ ss) ++ codes ")$")
  let rules = all_matches language_rule (group_text 2 language)
  patterns ← rules_patterns rules path_regex_source
  let expected = length (all_matches rule_opener (group_text 2 language))
  if is_nil patterns || not (length rules == expected)
      then err (no_literal_rules (group_text 1 language))
      else ok patterns

-- the loop over the languages
unfoldable pub languages_patterns :
    List Match → List (Text × List Text) → Result (List SkillSpectorPattern)
languages_patterns [] extensions = ok []
languages_patterns (language ∷ languages) extensions = do
  patterns ← language_patterns language (get (group_text 1 language) extensions)
  rest ← languages_patterns languages extensions
  ok (patterns ++ rest)

abbrev some_patterns : List SkillSpectorPattern → Result (List SkillSpectorPattern)
some_patterns [] = err no_language_rules
some_patterns (p ∷ ps) = ok (p ∷ ps)

abbrev block_patterns : Option Text → Text → Result (List SkillSpectorPattern)
block_patterns none source = ok []
block_patterns (some rules) source =
    let extensions =
      add_extension
        (all_matches extension_entry
          (text_or_empty (exec_group 1 (table_block (codes "_LANG_BY_EXT")) source)))
        [] in
    languages_patterns (all_matches language_list rules) extensions >>= some_patterns

-- `parseSkillSpectorLanguageRules`
unfoldable pub parse_skill_spector_language_rules : Text → Result (List SkillSpectorPattern)
unfolding exec_group all_matches
parse_skill_spector_language_rules source =
    block_patterns (exec_group 1 (table_block (codes "_LANG_RULES")) source) source
