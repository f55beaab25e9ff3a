-- ===== src/Codex.antt =====
-- scripts/repo/gen/import-codex-security.mts: rows from the capability profiles of codex-security.
pub mod Headers
use socket_scan_patterns.Emit.{DerivedRowSet, Disk, write_source_row_set}
use socket_scan_patterns.Failure.{Result, ok, err, ◌>>=◌}
use socket_scan_patterns.Gitleaks.{check_rows, or_text}
use socket_scan_patterns.Prelude.{
  ℕ, Bool, true, false, not, ◌&&◌, ◌||◌, List, [], ◌∷◌, ◌++◌, Option, none, some, ◌==◌,
  if◌then◌else◌, length, map, Ordering,
}
use socket_scan_patterns.Regex.Notation.{◌⨟◌, word, spaces, any, plus, quoted_body}
use socket_scan_patterns.Regex.{
  Rx, unit, star, lazy, capture, text_start, text_end, line_start, exec_group, all_matches,
  group_text,
}
use socket_scan_patterns.Schema.{
  PatternRule, PatternDialect, js, PatternKind, capability, PatternSeverity, high, medium, info,
}
use socket_scan_patterns.Text.Lines.{split_lines}
use socket_scan_patterns.Text.Order.{sort_texts}
use socket_scan_patterns.Text.{
  Text, codes, join, starts_with, trim_start, text_eq, is_letter, is_digit,
}
use socket_scan_patterns.Upstream.{
  Host, UpstreamSlice, read_slice_file, slice_file_path, resolve_upstream_slice,
}

-- `CODEX_CAPABILITIES_REL_PATH`, `CODEX_PLUGIN_REL_DIR` and `CODEX_MIN_EXPECTED_RULES`
abbrev pub codex_capabilities_rel_path : Text
codex_capabilities_rel_path = codes "preflight/capability-profiles.toml"

abbrev pub codex_plugin_rel_dir : Text
codex_plugin_rel_dir = codes "plugins/codex-security"

abbrev pub codex_min_expected_rules : ℕ
codex_min_expected_rules = 5

-- `CodexCapability`
pub record CodexCapability : Type 0 where
  pub kind : Text
  pub name : Text
  pub required : List Text

-- /^\s*required\s*=\s*\[([\s\S]*?)\]/m
abbrev required_array : Rx
required_array =
    line_start
    ⨟ spaces
    ⨟ word (codes "required")
    ⨟ spaces
    ⨟ word (codes "=")
    ⨟ spaces
    ⨟ word (codes "[")
    ⨟ capture 1 (lazy any)
    ⨟ word (codes "]")

-- /"((?:[^"\\]|\\.)*)"/g
abbrev quoted_string : Rx
quoted_string = word (b'"' ∷ []) ⨟ capture 1 (quoted_body b'"') ⨟ word (b'"' ∷ [])

abbrev strings_of : Option Text → List Text
strings_of none = []
strings_of (some body) = sort_texts (map (group_text 1) (all_matches quoted_string body))

-- `parseTomlStringArray`
unfoldable pub parse_toml_string_array : Text → List Text
unfolding exec_group
parse_toml_string_array block = strings_of (exec_group 1 required_array block)

-- /^\s*kind\s*=\s*"([^"]*)"/m
abbrev kind_line : Rx
kind_line =
    line_start
    ⨟ spaces
    ⨟ word (codes "kind")
    ⨟ spaces
    ⨟ word (codes "=")
    ⨟ spaces
    ⨟ word (b'"' ∷ [])
    ⨟ capture 1 (star (unit (λ c. not (c == b'"'))))
    ⨟ word (b'"' ∷ [])

-- /^\s*\[capabilities\.([A-Za-z0-9_]+)\]\s*$/
abbrev capability_header : Rx
capability_header =
    text_start
    ⨟ spaces
    ⨟ word (codes "[capabilities.")
    ⨟ capture 1 (plus (unit (λ c. is_letter c || is_digit c || c == b'_')))
    ⨟ word (codes "]")
    ⨟ spaces
    ⨟ text_end

-- the name in a line that is a header
unfoldable pub header_name : Text → Option Text
unfolding exec_group
header_name line = exec_group 1 capability_header line

-- the variables of `parseCodexCapabilities`
pub record Parsing : Type 0 where
  pub capabilities : List CodexCapability
  pub name : Option Text
  pub body : List Text

-- the capability of a name and the lines of its body
unfoldable pub capability_of : Text → List Text → CodexCapability
unfolding exec_group
capability_of name body =
    let text = join (codes "\n") body in
    record {
      kind = or_text (exec_group 1 kind_line text) (codes "unknown");
      name = name;
      required = parse_toml_string_array text;
    }

-- `flush`, by the name
abbrev pub flushed : Option Text → Parsing → Parsing
flushed none s = s
flushed (some []) s = s
flushed (some (c ∷ cs)) s = record {
  capabilities = s.capabilities ++ capability_of (c ∷ cs) s.body ∷ [];
  name = none;
  body = [];
}

abbrev pub flush : Parsing → Parsing
flush s = flushed s.name s

-- `if (name) body.push(line)`
abbrev pub pushed : Option Text → Text → Parsing → Parsing
pushed (some (c ∷ cs)) line s = record s { body = s.body ++ line ∷ [] }
pushed _ line s = s

-- the body of the loop, by the header that the line is
unfoldable pub take_line : Option Text → Text → Parsing → Parsing
take_line (some name) line s = record (flush s) { name = some name }
take_line none line s =
    if starts_with (codes "[") (trim_start line) then flush s else pushed s.name line s

-- the loop
unfoldable pub take_lines : List Text → Parsing → Parsing
take_lines [] s = s
take_lines (line ∷ lines) s = take_lines lines (take_line (header_name line) line s)

abbrev pub unparsed : Parsing
unparsed = record { capabilities = []; name = none; body = [] }

-- `parseCodexCapabilities`
unfoldable pub parse_codex_capabilities : Text → List CodexCapability
parse_codex_capabilities toml = (flush (take_lines (split_lines toml) unparsed)).capabilities

-- `codexCapabilitySeverity`
unfoldable pub codex_capability_severity : Text → PatternSeverity
codex_capability_severity kind =
    if text_eq kind (codes "plugin_skills")
    then high
    else if text_eq kind (codes "config") || text_eq kind (codes "runtime")
    then medium
    else info

-- `.replace(/_/g, t)`
abbrev replaced_by : ℕ → Text → Text
replaced_by d = map (λ c. if c == b'_' then d else c)

abbrev required_note : List Text → Text
required_note [] = []
required_note (skill ∷ skills) =
    codes " Requires the plugin skills: " ++ (join (codes ", ") (skill ∷ skills) ++ codes ".")

-- the row of a capability
unfoldable pub codex_row : UpstreamSlice → Text → CodexCapability → PatternRule
codex_row slice source_file c = record {
  category = c.kind;
  description =
      codes "codex-security declares the \""
      ++ (c.name
          ++ (codes "\" capability (kind: "
              ++ (c.kind ++ (codes ") for a deep security scan." ++ required_note c.required))));
  dialect = js;
  entropy = none;
  id = codes "codex-security:" ++ replaced_by b'-' c.name;
  keywords = c.required;
  kind = capability;
  path_regex_source = none;
  provenance = record {
    license = slice.license;
    rule_id = c.name;
    source = slice.source;
    source_file = source_file;
  };
  regex_flags = [];
  regex_source = none;
  severity = codex_capability_severity c.kind;
  title = replaced_by b' ' c.name;
}

-- `deriveCodexCapabilities`, on the text of the profiles
unfoldable pub derive_codex_capabilities : UpstreamSlice → Text → Text → Result DerivedRowSet
derive_codex_capabilities slice source_file toml =
    check_rows (λ source flags. true) slice source_file
      (codes "scripts/repo/gen/import-codex-security.mts") codex_min_expected_rules
      (map (codex_row slice source_file) (parse_codex_capabilities toml))

-- `generateCodexSecuritySource`
unfoldable pub generate_codex_security_source :
    (Text → Text → Ordering) → Host → Disk → Result (DerivedRowSet × Disk)
generate_codex_security_source locale_compare host disk = do
  slice ← resolve_upstream_slice host (codes "codex-security")
  let rel_path = codex_plugin_rel_dir ++ (codes "/" ++ codex_capabilities_rel_path)
  toml ← read_slice_file host slice rel_path
  row_set ← derive_codex_capabilities slice (slice_file_path host slice rel_path) toml
  ok (row_set, write_source_row_set locale_compare disk (codes "codex-security") row_set)
