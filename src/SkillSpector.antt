-- ===== src/SkillSpector.antt =====
-- scripts/repo/gen/import-skillspector.mts: rows from SkillSpector's analyzers.
pub mod Fields
pub mod Language
pub mod Modules
use Fields.{
  skill_spector_severity, skill_spector_category_from_module, parse_skill_spector_module_flags,
  parse_skill_spector_explanations, parse_skill_spector_patterns,
}
use Language.{SkillSpectorPattern}
use socket_scan_patterns.Dialect.{translate_regex_for_js, merge_regex_flags}
use socket_scan_patterns.Divergence.{is_declared_divergence}
use socket_scan_patterns.Emit.{DerivedRowSet, Disk, write_source_row_set}
use socket_scan_patterns.Failure.{Result, ok, err, zero_patterns, ◌>>=◌, ◌>>◌}
use socket_scan_patterns.Gitleaks.{check_rows, or_text}
use socket_scan_patterns.Json.{Json}
use socket_scan_patterns.Prelude.{
  ℕ, zero, suc, ◌+◌, ◌-◌, ◌*◌, ◌^◌, Bool, true, false, not, ◌&&◌, ◌||◌, List, [], ◌∷◌, ◌++◌, Option,
  none, some, ◌==◌, ltb, leb, if◌then◌else◌, length, map, keep, take, drop, every, Ordering,
}
use socket_scan_patterns.Regex.Notation.{
  ◌⨟◌, ◌⊕◌, word, spaces, any, plus, maybe, quoted_body, times, at_most,
}
use socket_scan_patterns.Regex.{
  Rx, Match, unit, star, lazy, capture, line_start, all_matches, group_of, group_text,
}
use socket_scan_patterns.Schema.{
  PatternRule, PatternKind, regex, PatternSeverity, critical, high, medium, low,
}
use socket_scan_patterns.TextSet.{get, put}
use socket_scan_patterns.Text.Numbers.{number_text}
use socket_scan_patterns.Text.Order.{sort_texts}
use socket_scan_patterns.Text.{
  Text, codes, starts_with, ends_with, includes, from_first, collapse_from, trim, text_eq, is_digit,
  is_upper,
}
use socket_scan_patterns.Upstream.{
  Host, UpstreamSlice, read_slice_file, slice_file_path, resolve_upstream_slice,
}

abbrev pub skillspector_analyzers_rel_dir : Text
skillspector_analyzers_rel_dir = codes "src/skillspector/nodes/analyzers"

abbrev pub skillspector_defaults_module : Text
skillspector_defaults_module = codes "pattern_defaults.py"

abbrev pub skillspector_min_expected_rules : ℕ
skillspector_min_expected_rules = 380

abbrev ordinal_of : Option ℕ → ℕ
ordinal_of none = 0
ordinal_of (some n) = n

abbrev severity_or : Option PatternSeverity → PatternSeverity → PatternSeverity
severity_or none s = s
severity_or (some s) t = s

abbrev or_option : Option Text → Option Text → Option Text
or_option none t = t
or_option (some s) t = some s

-- `toLowerCase` of a code, and whether `new RegExp(source, flags)` returns
module _ (to_lower_case : Text → Text) (compiles : Text → Text → Bool) (slice : UpstreamSlice) where
  -- the row of a pattern
  unfoldable pub skill_spector_row :
      Text → Text → Text → Option Text → ℕ → SkillSpectorPattern → PatternRule
  skill_spector_row source_file category module_flags explanation ordinal entry =
      let translated = translate_regex_for_js compiles entry.source in
      record {
        category = category;
        description = or_text (or_option explanation entry.title) (
            codes "SkillSpector "
            ++ (entry.code ++ (codes " pattern in the " ++ (category ++ codes " analyzer."))));
        dialect = translated.dialect;
        entropy = none;
        id =
            codes "skillspector:"
            ++ (to_lower_case entry.code ++ (codes "-" ++ number_text ordinal));
        keywords = [];
        kind = regex;
        path_regex_source = entry.path_regex_source;
        provenance = record {
          license = slice.license;
          rule_id = entry.code;
          source = slice.source;
          source_file = source_file;
        };
        regex_flags = merge_regex_flags (translated.flags ∷ module_flags ∷ []);
        regex_source = some translated.source;
        severity = severity_or entry.severity (skill_spector_severity entry.confidence);
        title = or_text entry.title (entry.code ++ (codes " " ++ category));
      }

  -- the loop over the patterns of a module, with `seenPerCode`
  unfoldable pub module_rows :
      Text
      → Text
      → Text
      → List (Text × Text)
      → List (Text × ℕ)
      → List SkillSpectorPattern
      → List PatternRule
  module_rows source_file category module_flags explanations seen_per_code [] = []
  module_rows source_file category module_flags explanations seen_per_code (entry ∷ entries) =
      let ordinal = ordinal_of (get entry.code seen_per_code) + 1 in
      skill_spector_row source_file category module_flags (get entry.code explanations) ordinal
        entry
      ∷ module_rows source_file category module_flags explanations
          (put entry.code ordinal seen_per_code) entries

  -- the check of a module without patterns
  unfoldable pub check_module :
      Option Json → Text → Text → List SkillSpectorPattern → Result (Unit {0})
  check_module divergences file_name source_file (p ∷ ps) = ok tt
  check_module divergences file_name source_file [] = do
    declared ← is_declared_divergence divergences (codes "skillspector") file_name
    if declared then ok tt else err (zero_patterns source_file)

  -- the body of the loop over the modules
  unfoldable pub rows_of_module :
      Host → Option Json → List (Text × Text) → Text → Result (List PatternRule)
  rows_of_module host divergences explanations file_name = do
    let rel_path = skillspector_analyzers_rel_dir ++ (codes "/" ++ file_name)
    let source_file = slice_file_path host slice rel_path
    source ← read_slice_file host slice rel_path
    patterns ← parse_skill_spector_patterns source
    check_module divergences file_name source_file patterns
    ok (
        module_rows source_file (skill_spector_category_from_module file_name)
          (parse_skill_spector_module_flags source) explanations [] patterns)

  -- the loop over the modules
  unfoldable pub rows_of_modules :
      Host → Option Json → List (Text × Text) → List Text → Result (List PatternRule)
  rows_of_modules host divergences explanations [] = ok []
  rows_of_modules host divergences explanations (file_name ∷ file_names) = do
    rows ← rows_of_module host divergences explanations file_name
    rest ← rows_of_modules host divergences explanations file_names
    ok (rows ++ rest)

  -- `moduleFiles`
  unfoldable pub module_files : Host → List Text
  module_files host = sort_texts (
      keep (λ name. starts_with (codes "static_patterns_") name && ends_with (codes ".py") name)
        (host.read_dir (host.path_join (slice.root_path ∷ skillspector_analyzers_rel_dir ∷ []))))

  -- `deriveSkillSpectorRules`
  unfoldable pub derive_skill_spector_rules : Host → Option Json → Result DerivedRowSet
  derive_skill_spector_rules host divergences = do
    defaults ←
        read_slice_file host slice
          (skillspector_analyzers_rel_dir ++ (codes "/" ++ skillspector_defaults_module))
    rules ←
        rows_of_modules host divergences (parse_skill_spector_explanations defaults)
          (module_files host)
    check_rows compiles slice (slice_file_path host slice skillspector_analyzers_rel_dir)
        (codes "scripts/repo/gen/import-skillspector.mts") skillspector_min_expected_rules rules

-- `generateSkillSpectorSource`
unfoldable pub generate_skill_spector_source :
    (Text → Text → Ordering)
    → (Text → Text)
    → (Text → Text → Bool)
    → Host
    → Option Json
    → Disk
    → Result (DerivedRowSet × Disk)
generate_skill_spector_source locale_compare to_lower_case compiles host divergences disk = do
  slice ← resolve_upstream_slice host (codes "skillspector")
  row_set ← derive_skill_spector_rules to_lower_case compiles slice host divergences
  ok (row_set, write_source_row_set locale_compare disk (codes "skillspector") row_set)
