-- ===== src/Tests/CodexRuns.antt =====
-- import-codex-security.mts
use socket_scan_patterns.Codex.Headers.{header_names, parse_codex_capabilities-header_names}
use socket_scan_patterns.Codex.{
  parse_codex_capabilities, parse_toml_string_array, take_lines, take_line, header_name,
  capability_of,
}
use socket_scan_patterns.Prelude.{[], ◌∷◌, map, ◌≡◌, refl}
use socket_scan_patterns.Regex.{exec_group, all_matches}
use socket_scan_patterns.Text.Lines.{split_lines}
use socket_scan_patterns.Text.Order.{sort_texts, text_compare}
use socket_scan_patterns.Text.{Text, codes, join, starts_with, trim_start, is_space}

abbrev profiles : Text
profiles =
    codes
      "x = 1\n[capabilities.skills]\nkind = \"plugin_skills\"\nrequired = [\n  \"b\",\n  \"a\",\n]\n[other]\nkind = \"y\"\n[capabilities.net]\n"

capabilities_run :
    parse_codex_capabilities profiles
    ≡ record {
      kind = codes "plugin_skills";
      name = codes "skills";
      required = codes "a" ∷ codes "b" ∷ [];
    }
      ∷ record { kind = codes "unknown"; name = codes "net"; required = [] }
      ∷ []
unfolding parse_codex_capabilities take_lines take_line header_name capability_of
    parse_toml_string_array exec_group all_matches split_lines sort_texts text_compare join
    starts_with trim_start is_space
capabilities_run = refl

parse_codex_capabilities-header_names_example :
    map (λ c. c.name) (parse_codex_capabilities profiles) ≡ header_names (split_lines profiles)
parse_codex_capabilities-header_names_example = parse_codex_capabilities-header_names profiles
