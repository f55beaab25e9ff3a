-- ===== src/SkillSpector/Fields.antt =====
-- import-skillspector.mts: what is read from the Python source of an analyzer.
use socket_scan_patterns.SkillSpector.Language.{
  SkillSpectorPattern, parse_skill_spector_language_rules,
}
use socket_scan_patterns.Failure.{Result, ok, ◌>>=◌}
use socket_scan_patterns.Prelude.{
  ℕ, zero, suc, ◌+◌, ◌-◌, ◌*◌, ◌^◌, Bool, false, ◌||◌, List, [], ◌∷◌, ◌++◌, Option, none, some,
  ◌==◌, leb, if◌then◌else◌, length, map, take, drop, every,
}
use socket_scan_patterns.Regex.Notation.{
  ◌⨟◌, ◌⊕◌, word, spaces, any, plus, maybe, quoted_body, at_most,
}
use socket_scan_patterns.Regex.{
  Rx, Match, unit, star, lazy, capture, line_start, all_matches, group_of, group_text,
}
use socket_scan_patterns.Schema.{PatternSeverity, critical, high, medium, low}
use socket_scan_patterns.TextSet.{put}
use socket_scan_patterns.Text.{
  Text, codes, starts_with, ends_with, includes, from_first, collapse_from, trim, is_digit,
  is_upper,
}

-- the digits of `Number(literal)` before and behind the point, and `none` for NaN
abbrev behind_point : Text → Text → Option (Text × Text)
behind_point [] [] = none
behind_point before after = if every is_digit after then some (before, after) else none

abbrev number_parts : Text → Text → Option (Text × Text)
number_parts before [] = behind_point before []
number_parts before (c ∷ cs) =
    let further = number_parts (before ++ c ∷ []) cs in
    if c == b'.' then behind_point before cs else further

abbrev decimal : ℕ → Text → ℕ
decimal n [] = n
decimal n (c ∷ cs) = decimal (n * 10 + (c - b'0')) cs

-- whether a number is at least so many hundredths
abbrev at_least : Option (Text × Text) → ℕ → Bool
at_least none hundredths = false
at_least (some (before, after)) hundredths =
    leb (hundredths * 10 ^ length after) (decimal 0 (before ++ after) * 100)

-- `skillSpectorSeverity`, of the literal. A literal is compared by its exact value.
unfoldable pub skill_spector_severity : Text → PatternSeverity
skill_spector_severity literal =
    let confidence = number_parts [] literal in
    if at_least confidence 90
    then critical
    else if at_least confidence 75
    then high
    else if at_least confidence 50
    then medium
    else low

abbrev without_prefix : Text → Text → Text
without_prefix p t = if starts_with p t then drop (length p) t else t

abbrev without_suffix : Text → Text → Text
without_suffix p t = if ends_with p t then take (length t - length p) t else t

-- `skillSpectorCategoryFromModule`
unfoldable pub skill_spector_category_from_module : Text → Text
unfolding starts_with ends_with
skill_spector_category_from_module module_name =
    map (λ c. if c == b'_' then b'-' else c)
      (without_suffix (codes ".py") (without_prefix (codes "static_patterns_") module_name))

-- `parseSkillSpectorModuleFlags`
unfoldable pub parse_skill_spector_module_flags : Text → Text
unfolding includes
parse_skill_spector_module_flags source =
    (if includes (codes "re.IGNORECASE") source then codes "i" else [])
    ++ ((if includes (codes "re.MULTILINE") source then codes "m" else [])
        ++ (if includes (codes "re.DOTALL") source then codes "s" else []))

-- `.replace(/p/g, t)` of a text p, with how many code units of a match are still to be skipped
unfoldable pub replaced : Text → Text → ℕ → Text → Text
replaced p t skipped [] = []
replaced p t (suc skipped) (c ∷ cs) = replaced p t skipped cs
replaced p t zero (c ∷ cs) =
    let inside = replaced p t (length p - 1) cs in
    let further = replaced p t zero cs in
    if starts_with p (c ∷ cs) then t ++ inside else c ∷ further

-- `unescapePythonString`
unfoldable pub unescape_python_string : Text → Text
unescape_python_string raw = trim (
    collapse_from false (
      replaced (codes "\\\\") (codes "\\") 0
        (replaced (codes "\\\"") (codes "\"") 0 (replaced (codes "\\n") (codes " ") 0 raw))))

-- /"([A-Z]{1,3}\d{1,2})":\s*"((?:[^"\\]|\\.)*)"/g
abbrev explanation_entry : Rx
explanation_entry =
    word (codes "\"")
    ⨟ capture 1
        (unit is_upper ⨟ at_most 2 (unit is_upper) ⨟ unit is_digit ⨟ at_most 1 (unit is_digit))
    ⨟ word (codes "\":")
    ⨟ spaces
    ⨟ word (codes "\"")
    ⨟ capture 2 (quoted_body b'"')
    ⨟ word (codes "\"")

abbrev set_explanations : List Match → List (Text × Text) → List (Text × Text)
set_explanations [] m = m
set_explanations (entry ∷ entries) m =
    set_explanations entries
      (put (group_text 1 entry) (unescape_python_string (group_text 2 entry)) m)

abbrev explanations_of : Option Text → List (Text × Text)
explanations_of none = []
explanations_of (some block) = set_explanations (all_matches explanation_entry block) []

-- `parseSkillSpectorExplanations`
unfoldable pub parse_skill_spector_explanations : Text → List (Text × Text)
unfolding from_first all_matches
parse_skill_spector_explanations source =
    explanations_of (from_first (codes "DEFAULT_EXPLANATIONS") source)

-- /^([A-Z][A-Z0-9]*)_PATTERNS\s*=\s*\[([\s\S]*?)^\]/gm
abbrev pattern_group : Rx
pattern_group =
    line_start
    ⨟ capture 1 (unit is_upper ⨟ star (unit (λ c. is_upper c || is_digit c)))
    ⨟ word (codes "_PATTERNS")
    ⨟ spaces
    ⨟ word (codes "=")
    ⨟ spaces
    ⨟ word (codes "[")
    ⨟ capture 2 (lazy any)
    ⨟ line_start
    ⨟ word (codes "]")

-- /\(\s*r(?:"((?:[^"\\]|\\.)*)"|'((?:[^'\\]|\\.)*)')\s*,\s*([0-9.]+)\s*,?\s*\)/g
abbrev pattern_tuple : Rx
pattern_tuple =
    word (codes "(")
    ⨟ spaces
    ⨟ word (codes "r")
    ⨟ ((word (codes "\"") ⨟ capture 1 (quoted_body b'"') ⨟ word (codes "\""))
        ⊕ (word (codes "'") ⨟ capture 2 (quoted_body b'\'') ⨟ word (codes "'")))
    ⨟ spaces
    ⨟ word (codes ",")
    ⨟ spaces
    ⨟ capture 3 (plus (unit (λ c. is_digit c || c == b'.')))
    ⨟ spaces
    ⨟ maybe (word (codes ","))
    ⨟ spaces
    ⨟ word (codes ")")

-- `tuple[1] ?? tuple[2]`
abbrev either_group : Option Text → Option Text → Option Text
either_group none t = t
either_group (some s) t = some s

abbrev pattern_of : Text → Text → Option Text → List SkillSpectorPattern
pattern_of code confidence (some (c ∷ cs)) =
    record {
      code = code;
      confidence = confidence;
      path_regex_source = none;
      severity = none;
      source = c ∷ cs;
      title = none;
    }
    ∷ []
pattern_of code confidence _ = []

-- the loop over the tuples of a group
abbrev tuple_patterns : Text → List Match → List SkillSpectorPattern
tuple_patterns code [] = []
tuple_patterns code (tuple ∷ tuples) =
    pattern_of code (group_text 3 tuple) (either_group (group_of 1 tuple) (group_of 2 tuple))
    ++ tuple_patterns code tuples

-- the loop over the groups
abbrev group_patterns : List Match → List SkillSpectorPattern
group_patterns [] = []
group_patterns (group ∷ groups) =
    tuple_patterns (group_text 1 group) (all_matches pattern_tuple (group_text 2 group))
    ++ group_patterns groups

-- `parseSkillSpectorPatterns`
unfoldable pub parse_skill_spector_patterns : Text → Result (List SkillSpectorPattern)
unfolding all_matches
parse_skill_spector_patterns source = do
  patterns ← parse_skill_spector_language_rules source
  ok (patterns ++ group_patterns (all_matches pattern_group source))
