-- ===== src/Gitleaks.antt =====
-- scripts/repo/gen/import-gitleaks.mts: rows from gitleaks' TOML configuration.
pub mod Blocks
pub mod Rows
pub mod Fields
pub mod Lines
use Fields.{read_gitleaks_scalar, read_gitleaks_keywords, read_gitleaks_number}
use socket_scan_patterns.Compose.{truthy}
use socket_scan_patterns.Dialect.{TranslatedRegex, translate_regex_for_js, is_js}
use socket_scan_patterns.Emit.{DerivedRowSet, Disk, assert_rows_present, write_source_row_set}
use socket_scan_patterns.Failure.{Result, ok, err, too_few_rules, ◌>>=◌, ◌>>◌}
use socket_scan_patterns.Prelude.{
  ℕ, Bool, true, false, not, ◌&&◌, ◌||◌, List, [], ◌∷◌, ◌++◌, Option, none, some, ◌==◌, ltb,
  if◌then◌else◌, length, Ordering,
}
use socket_scan_patterns.Schema.{
  PatternRule, PatternDialect, js, re2, PatternKind, path, regex, PatternSeverity, high,
}
use socket_scan_patterns.Text.{Text, codes, join, starts_with, trim_start}
use socket_scan_patterns.Text.Lines.{split_lines}
use socket_scan_patterns.Upstream.{
  Host, UpstreamSlice, read_slice_file, slice_file_path, resolve_upstream_slice,
}

-- `GITLEAKS_MIN_EXPECTED_RULES`
abbrev pub gitleaks_min_expected_rules : ℕ
gitleaks_min_expected_rules = 200

-- `GITLEAKS_DEFAULT_SEVERITY`
abbrev pub gitleaks_default_severity : PatternSeverity
gitleaks_default_severity = high

-- the test of a line that opens a rule
abbrev pub opens_rule : Text → Bool
opens_rule line = starts_with (codes "[[rules]]") (trim_start line)

-- the test of a line that ends one: a table that is not one of the rule's own
abbrev pub ends_rule : Text → Bool
ends_rule line =
    let trimmed = trim_start line in
    starts_with (codes "[") trimmed && not (starts_with (codes "[rules.") trimmed)

-- closing the block that is open, if one is
abbrev pub closed : List Text → Option (List Text) → List Text
closed blocks none = blocks
closed blocks (some current) = blocks ++ join (codes "\n") current ∷ []

-- the loop of `splitGitleaksRuleBlocks`, with `blocks` and `current`
unfoldable pub split_from : List Text → List Text → Option (List Text) → List Text
split_from [] blocks current = closed blocks current
split_from (line ∷ lines) blocks current =
    let opened = split_from lines (closed blocks current) (some []) in
    let skipped = split_from lines blocks none in
    let ended = λ (body : List Text). split_from lines (closed blocks (some body)) none in
    let longer = λ (body : List Text). split_from lines blocks (some (body ++ line ∷ [])) in
    if opens_rule line then opened else elim current [
      | none ↦ skipped
      | some body ↦ if ends_rule line then ended body else longer body
    ]

-- `splitGitleaksRuleBlocks`
unfoldable pub split_gitleaks_rule_blocks : Text → List Text
unfolding split_from
split_gitleaks_rule_blocks toml = split_from (split_lines toml) [] none

-- `id.split('-')[0]`
unfoldable pub before_dash : Text → Text
before_dash [] = []
before_dash (c ∷ cs) = let rest = before_dash cs in if c == b'-' then [] else c ∷ rest

abbrev or_generic : Text → Text
or_generic [] = codes "generic"
or_generic (c ∷ cs) = c ∷ cs

-- `gitleaksCategoryFromId`
unfoldable pub gitleaks_category_from_id : Text → Text
unfolding before_dash
gitleaks_category_from_id id = or_generic (before_dash id)

abbrev pub or_text : Option Text → Text → Text
or_text none t = t
or_text (some s) t = s

-- the translation of the path pattern, if there is one
abbrev pub translated_path : (Text → Text → Bool) → Option Text → Option TranslatedRegex
translated_path compiles none = none
translated_path compiles (some []) = none
translated_path compiles (some (c ∷ cs)) = some (translate_regex_for_js compiles (c ∷ cs))

abbrev pub path_is_js : Option TranslatedRegex → Bool
path_is_js none = true
path_is_js (some t) = is_js t.dialect

abbrev pub source_of : Option TranslatedRegex → Option Text
source_of none = none
source_of (some t) = some t.source

module _ (compiles : Text → Text → Bool) (slice : UpstreamSlice) (source_file : Text) where
  -- the row of a block whose id and pattern were read
  unfoldable pub gitleaks_row : Text → Text → Text → PatternRule
  gitleaks_row block id regex_source =
      let raw_path = read_gitleaks_scalar block (codes "path") in
      let translated = translate_regex_for_js compiles regex_source in
      let path_translation = translated_path compiles raw_path in
      record {
        category = gitleaks_category_from_id id;
        description = or_text (read_gitleaks_scalar block (codes "description")) id;
        dialect = if is_js translated.dialect && path_is_js path_translation then js else re2;
        entropy = read_gitleaks_number block (codes "entropy");
        id = codes "gitleaks:" ++ id;
        keywords = read_gitleaks_keywords block;
        kind = if truthy raw_path then path else regex;
        path_regex_source = source_of path_translation;
        provenance = record {
          license = slice.license;
          rule_id = id;
          source = slice.source;
          source_file = source_file;
        };
        regex_flags = translated.flags;
        regex_source = some translated.source;
        severity = gitleaks_default_severity;
        title = id;
      }

  -- the guard `!id || !regexSource` and the row
  unfoldable pub row_of_fields : Text → Option Text → Option Text → List PatternRule
  row_of_fields block (some (i ∷ id)) (some (r ∷ rs)) = gitleaks_row block (i ∷ id) (r ∷ rs) ∷ []
  row_of_fields block _ _ = []

  -- the loop over the blocks
  unfoldable pub gitleaks_rows : List Text → List PatternRule
  gitleaks_rows [] = []
  gitleaks_rows (block ∷ blocks) =
      row_of_fields block (read_gitleaks_scalar block (codes "id"))
        (read_gitleaks_scalar block (codes "regex"))
      ++ gitleaks_rows blocks

  -- the two assertions on the parsed rows
  unfoldable pub check_rows : Text → ℕ → List PatternRule → Result DerivedRowSet
  check_rows generator least rules = do
    assert_rows_present rules generator source_file
    if ltb (length rules) least
        then err (too_few_rules source_file (length rules) least)
        else ok (record { rules = rules; sources = slice.source ∷ [] })

  -- `deriveGitleaksRules`, on the text of the configuration
  unfoldable pub derive_gitleaks_rules : Text → Result DerivedRowSet
  derive_gitleaks_rules toml =
      check_rows (codes "scripts/repo/gen/import-gitleaks.mts") gitleaks_min_expected_rules
        (gitleaks_rows (split_gitleaks_rule_blocks toml))

-- `GITLEAKS_CONFIG_REL_PATH`
abbrev pub gitleaks_config_rel_path : Text
gitleaks_config_rel_path = codes "config/gitleaks.toml"

-- `generateGitleaksSource`: resolve, read, derive and write
unfoldable pub generate_gitleaks_source :
    (Text → Text → Ordering) → (Text → Text → Bool) → Host → Disk → Result (DerivedRowSet × Disk)
generate_gitleaks_source locale_compare compiles host disk = do
  slice ← resolve_upstream_slice host (codes "gitleaks")
  toml ← read_slice_file host slice gitleaks_config_rel_path
  row_set ←
      derive_gitleaks_rules compiles slice (slice_file_path host slice gitleaks_config_rel_path)
        toml
  ok (row_set, write_source_row_set locale_compare disk (codes "gitleaks") row_set)
