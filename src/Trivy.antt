-- ===== src/Trivy.antt =====
-- scripts/repo/gen/import-trivy-secrets.mts: rows from the Go source of Trivy's secret rules.
pub mod Fields
pub mod Rows
pub mod Bodies
use Fields.{
  read_trivy_categories, read_trivy_compiled_pattern, read_trivy_field, read_trivy_keywords,
  read_trivy_quoted_field, read_trivy_regex_fragments,
}
use socket_scan_patterns.Compose.{truthy}
use socket_scan_patterns.Dialect.{TranslatedRegex, is_js}
use socket_scan_patterns.Emit.{DerivedRowSet, Disk, write_source_row_set}
use socket_scan_patterns.Failure.{Result, ok, err, ◌>>=◌}
use socket_scan_patterns.Gitleaks.{check_rows, or_text, path_is_js, source_of, translated_path}
use socket_scan_patterns.Prelude.{
  ℕ, ◌+◌, ◌-◌, Bool, true, false, ◌&&◌, List, [], ◌∷◌, ◌++◌, Option, none, some, Ordering, ◌==◌,
  leb, if◌then◌else◌,
}
use socket_scan_patterns.Regex.Notation.{◌⨟◌, word, spaces}
use socket_scan_patterns.Regex.{Rx, text_start, text_end, test}
use socket_scan_patterns.Schema.{
  PatternRule, PatternSeverity, critical, high, low, medium, PatternDialect, js, re2, PatternKind,
  path, regex,
}
use socket_scan_patterns.Text.Lines.{split_lines}
use socket_scan_patterns.Text.{Text, codes, from_first, join, starts_with, text_eq}
use socket_scan_patterns.TextSet.{get}
use socket_scan_patterns.Upstream.{
  Host, UpstreamSlice, read_slice_file, slice_file_path, resolve_upstream_slice,
}

-- `TRIVY_RULES_REL_PATH`
abbrev pub trivy_rules_rel_path : Text
trivy_rules_rel_path = codes "pkg/fanal/secret/builtin-rules.go"

-- `TRIVY_MIN_EXPECTED_RULES`
abbrev pub trivy_min_expected_rules : ℕ
trivy_min_expected_rules = 90

-- the cases of `trivySeverityToPatternSeverity`, on the text in upper case
unfoldable pub severity_of_upper : Text → PatternSeverity
severity_of_upper upper =
    if text_eq upper (codes "CRITICAL")
    then critical
    else if text_eq upper (codes "HIGH")
    then high
    else if text_eq upper (codes "LOW")
    then low
    else if text_eq upper (codes "MEDIUM")
    then medium
    else high

-- how often a code unit occurs: the length of `line.match(/C/g) ?? []`
unfoldable pub occurrences : ℕ → Text → ℕ
occurrences c [] = 0
occurrences c (d ∷ ds) = let more = occurrences c ds in if d == c then more + 1 else more

-- /^\t\{\s*$/
abbrev opening : Rx
opening = text_start ⨟ word (codes "\t{") ⨟ spaces ⨟ text_end

-- `/^\t\{\s*$/.test(line)`
unfoldable pub opens_body : Text → Bool
unfolding test
opens_body line = test opening line

-- the body that is open, with its depth
abbrev pub Open : Type 0
Open = Option (List Text × ℕ)

-- the loop of `splitTrivyRuleBodies`. The depth of the source goes below 0 only where it is
-- dropped, so the comparison is that of the braces opened and closed.
unfoldable pub bodies_from : List Text → List Text → Open → List Text
unfolding opens_body
bodies_from [] bodies current = bodies
bodies_from (line ∷ lines) bodies none =
    let opened = bodies_from lines bodies (some ([], 1)) in
    let skipped = bodies_from lines bodies none in
    if opens_body line then opened else if starts_with (codes "}") line then bodies else skipped
bodies_from (line ∷ lines) bodies (some (body, depth)) =
    let opens = occurrences b'{' line in
    let closes = occurrences b'}' line in
    let closed = bodies_from lines (bodies ++ join (codes "\n") body ∷ []) none in
    let longer = bodies_from lines bodies (some (body ++ line ∷ [], depth + opens - closes)) in
    if leb (depth + opens) closes then closed else longer

abbrev pub without_first : List Text → List Text
without_first [] = []
without_first (line ∷ lines) = lines

-- `splitTrivyRuleBodies`
unfoldable pub split_trivy_rule_bodies : Text → List Text
unfolding bodies_from
split_trivy_rule_bodies source = elim (from_first (codes "var builtinRules = []Rule{") source) [
  | none ↦ []
  | some region ↦ bodies_from (without_first (split_lines region)) [] none
]

abbrev content_is_js : Option TranslatedRegex → Bool
content_is_js none = false
content_is_js (some t) = is_js t.dialect

-- `trivyPatternDialect`
abbrev pub trivy_pattern_dialect : Option TranslatedRegex → Option TranslatedRegex → PatternDialect
trivy_pattern_dialect content scoped_path =
    if content_is_js content && path_is_js scoped_path then js else re2

abbrev flags_of : Option TranslatedRegex → Text
flags_of none = []
flags_of (some t) = t.flags

-- the category behind an alias
abbrev pub trivy_category : List (Text × Text) → Option Text → Text
trivy_category categories none = codes "generic"
trivy_category categories (some []) = codes "generic"
trivy_category categories (some (c ∷ cs)) = or_text (get (c ∷ cs) categories) (c ∷ cs)

-- `toUpperCase` of strings, and whether `new RegExp(source, flags)` returns
module _ (to_upper_case : Text → Text) (compiles : Text → Text → Bool) where
  -- `trivySeverityToPatternSeverity`
  abbrev pub trivy_severity_to_pattern_severity : Option Text → PatternSeverity
  trivy_severity_to_pattern_severity none = high
  trivy_severity_to_pattern_severity (some raw) = severity_of_upper (to_upper_case raw)

  module _ (slice : UpstreamSlice) (source_file source : Text) where
    -- the row of a body whose id was read
    unfoldable pub trivy_row : Text → Text → PatternRule
    trivy_row body id =
        let fragments = read_trivy_regex_fragments source in
        let regex_source = read_trivy_compiled_pattern body (codes "Regex") fragments in
        let path_regex_source = read_trivy_compiled_pattern body (codes "Path") fragments in
        let translated = translated_path compiles regex_source in
        let path_translation = translated_path compiles path_regex_source in
        let title = or_text (read_trivy_quoted_field body (codes "Title")) id in
        record {
          category =
              trivy_category (read_trivy_categories source)
                (read_trivy_field body (codes "Category"));
          description = title;
          dialect = trivy_pattern_dialect translated path_translation;
          entropy = none;
          id = codes "trivy:" ++ id;
          keywords = read_trivy_keywords body;
          kind = if truthy path_regex_source then path else regex;
          path_regex_source = source_of path_translation;
          provenance = record {
            license = slice.license;
            rule_id = id;
            source = slice.source;
            source_file = source_file;
          };
          regex_flags = flags_of translated;
          regex_source = source_of translated;
          severity =
              trivy_severity_to_pattern_severity (read_trivy_quoted_field body (codes "Severity"));
          title = title;
        }

    -- the guard `!id` and the row
    unfoldable pub row_of_id : Text → Option Text → List PatternRule
    row_of_id body none = []
    row_of_id body (some []) = []
    row_of_id body (some (c ∷ cs)) = trivy_row body (c ∷ cs) ∷ []

    -- the loop over the bodies
    unfoldable pub trivy_rows : List Text → List PatternRule
    trivy_rows [] = []
    trivy_rows (body ∷ bodies) =
        row_of_id body (read_trivy_quoted_field body (codes "ID")) ++ trivy_rows bodies

    -- `deriveTrivyRules`, on the text of the source
    unfoldable pub derive_trivy_rules : Result DerivedRowSet
    derive_trivy_rules =
        check_rows compiles slice source_file (codes "scripts/repo/gen/import-trivy-secrets.mts")
          trivy_min_expected_rules (trivy_rows (split_trivy_rule_bodies source))

  -- `generateTrivySource`
  unfoldable pub generate_trivy_source :
      (Text → Text → Ordering) → Host → Disk → Result (DerivedRowSet × Disk)
  generate_trivy_source locale_compare host disk = do
    slice ← resolve_upstream_slice host (codes "trivy")
    source ← read_slice_file host slice trivy_rules_rel_path
    row_set ← derive_trivy_rules slice (slice_file_path host slice trivy_rules_rel_path) source
    ok (row_set, write_source_row_set locale_compare disk (codes "trivy") row_set)
