-- ===== src/Tests/SkillSpectorRuns.antt =====
-- import-skillspector.mts and import-skillspector/language.mts
use socket_scan_patterns.Emit.{DerivedRowSet, assert_rows_present}
use socket_scan_patterns.Failure.{ok, err, no_literal_rules}
use socket_scan_patterns.Gitleaks.{check_rows}
use socket_scan_patterns.Prelude.{
  ℕ, zero, suc, ◌+◌, ◌≤◌, true, List, [], ◌∷◌, ◌++◌, none, some, All, length, ◌≡◌, refl,
}
use socket_scan_patterns.Schema.{spdx, critical, high, medium, low}
use socket_scan_patterns.SkillSpector.Language.{
  SkillSpectorPattern, parse_skill_spector_language_rules, languages_patterns, language_patterns,
  rules_patterns, parse_language_tuples, skill_spector_language_severity,
}
use socket_scan_patterns.SkillSpector.Modules.{IsCovered, derive_skill_spector_rules-All}
use socket_scan_patterns.SkillSpector.Fields.{
  skill_spector_severity, skill_spector_category_from_module, parse_skill_spector_module_flags,
  replaced, unescape_python_string, parse_skill_spector_explanations, parse_skill_spector_patterns,
}
use socket_scan_patterns.SkillSpector.{
  derive_skill_spector_rules, rows_of_modules, rows_of_module, check_module, module_rows,
  module_files, skill_spector_row,
}
use socket_scan_patterns.Regex.{exec_group, all_matches}
use socket_scan_patterns.Text.{
  Text, codes, join, text_eq, starts_with, ends_with, includes, from_first, collapse_from, trim,
  is_space,
}
use socket_scan_patterns.Text.Order.{sort_texts, text_compare}
use socket_scan_patterns.TextSet.{get, put}
use socket_scan_patterns.Upstream.{Host, UpstreamSlice, read_slice_file}

small_runs :
    (skill_spector_severity (codes "0.9") ≡ critical)
    × (skill_spector_severity (codes "0.85") ≡ high)
    × (skill_spector_severity (codes ".5") ≡ medium)
    × (skill_spector_severity (codes "0.9.1") ≡ low)
    × (skill_spector_category_from_module (codes "static_patterns_prompt_injection.py")
        ≡ codes "prompt-injection")
    × (parse_skill_spector_module_flags (codes "re.DOTALL | re.IGNORECASE") ≡ codes "is")
    × (unescape_python_string (codes " a\\n \\\"b\\\" \\\\") ≡ codes "a \"b\" \\")
unfolding skill_spector_severity skill_spector_category_from_module parse_skill_spector_module_flags
    unescape_python_string replaced starts_with ends_with includes collapse_from trim
small_runs = (refl, refl, refl, refl, refl, refl, refl)

abbrev pattern : Text → Text → SkillSpectorPattern
pattern code source = record {
  code = code;
  confidence = codes "0.8";
  path_regex_source = none;
  severity = none;
  source = source;
  title = none;
}

patterns_run :
    parse_skill_spector_patterns (
      codes
        "_SAFE_PATTERNS = [\n(r\"no\", 0.8),\n]\nP1_PATTERNS = [\n  (r\"a\", 0.8), (r'b', 0.8,\n),\n]\n")
    ≡ ok (pattern (codes "P1") (codes "a") ∷ pattern (codes "P1") (codes "b") ∷ [])
unfolding parse_skill_spector_patterns parse_skill_spector_language_rules exec_group all_matches
    is_space
patterns_run = refl

abbrev language_source : Text → Text
language_source more =
    codes "_LANG_BY_EXT: dict = {\n    \".js\": \"js\",\n    \".mjs\": \"js\",\n}\n"
    ++ (codes
          "_LANG_RULES: dict = {\n    \"js\": [\n        (\"L1\", \"Eval\", Severity.HIGH, [(r\"eval\", 0.8)],\n        ),\n"
        ++ (more ++ codes "    ],\n}\n"))

language_run :
    (parse_skill_spector_language_rules (language_source [])
      ≡ ok (
          record {
            code = codes "L1";
            confidence = codes "0.8";
            path_regex_source = some (codes "\\.(?:js|mjs)$");
            severity = some high;
            source = codes "eval";
            title = some (codes "Eval");
          }
          ∷ []))
    × (parse_skill_spector_language_rules (language_source (codes "        (rule(),\n"))
        ≡ err (no_literal_rules (codes "js")))
    × (parse_skill_spector_language_rules (codes "x = 1\n") ≡ ok [])
unfolding parse_skill_spector_language_rules languages_patterns language_patterns rules_patterns
    parse_language_tuples skill_spector_language_severity exec_group all_matches get put join
    text_eq is_space
language_run = (refl, refl, refl)

-- 38 analyzer modules with ten patterns each
abbrev times : ℕ → Text → Text
times zero t = []
times (suc n) t = t ++ times n t

abbrev analyzer : Text
analyzer = codes "P1_PATTERNS = [\n" ++ (times 10 (codes "(r\"a\", 0.8),\n") ++ codes "]\n")

abbrev analyzer_names : ℕ → List Text
analyzer_names zero = []
analyzer_names (suc n) = (codes "static_patterns_" ++ ((b'a' + n) ∷ codes ".py")) ∷ analyzer_names n

abbrev host : Host
host = record {
  path_join = join (codes "/");
  normalize_path = λ path. path;
  repo_root = codes "/repo";
  upstream_dir = codes "/repo/upstream";
  read_file = λ path. some analyzer;
  exists_dir = λ path. true;
  read_dir = λ path. codes "README.md" ∷ analyzer_names 38;
}

abbrev slice : UpstreamSlice
slice = record {
  license = spdx (codes "Apache-2.0");
  name = codes "skillspector";
  source = codes "skillspector@v1";
  root_path = codes "/repo/upstream/skillspector";
  tag = codes "v1";
}

derived :
    (row_set : DerivedRowSet) × (derive_skill_spector_rules
        (λ t. t)
        (λ source flags. true)
        slice
        host
        none
      ≡ ok row_set)
unfolding derive_skill_spector_rules rows_of_modules rows_of_module check_module module_rows
    module_files skill_spector_row parse_skill_spector_explanations parse_skill_spector_patterns
    parse_skill_spector_language_rules exec_group all_matches read_slice_file sort_texts
    text_compare starts_with ends_with includes from_first text_eq is_space check_rows
    assert_rows_present get put
derived = (_, refl)

derive_skill_spector_rules-All_example :
    (explanations : List (Text × Text)) × All
      (IsCovered (λ t. t) (λ source flags. true) slice host none explanations)
      (module_files (λ t. t) (λ source flags. true) slice host)
    × (380 ≤ length derived.0.rules)
derive_skill_spector_rules-All_example =
    derive_skill_spector_rules-All (λ t. t) (λ source flags. true) slice host none derived.0
      derived.1
