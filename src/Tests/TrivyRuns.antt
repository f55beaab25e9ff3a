-- ===== src/Tests/TrivyRuns.antt =====
-- import-trivy-secrets.mts
use socket_scan_patterns.Schema.{spdx}
use socket_scan_patterns.Prelude.{[], ◌∷◌, some, All, ◌≡◌, refl}
use socket_scan_patterns.Tests.Samples.{sample_engine, sample_host}
use socket_scan_patterns.Text.Lines.{split_lines}
use socket_scan_patterns.Text.{Text, codes, text_eq, starts_with, from_first, trim, is_space, join}
use socket_scan_patterns.TextSet.{get, put}
use socket_scan_patterns.Trivy.Fields.{
  read_trivy_compiled_pattern, read_trivy_quoted_field, read_trivy_regex_fragments,
  read_trivy_field, resolve_trivy_regex, exec_truthy, fill, split_commas,
}
use socket_scan_patterns.Trivy.Rows.{IsTrivyRow, trivy_rows-All}
use socket_scan_patterns.Trivy.{
  split_trivy_rule_bodies, bodies_from, occurrences, opens_body, trivy_rows,
}
use socket_scan_patterns.Upstream.{UpstreamSlice, slice_of}

abbrev go_source : Text
go_source =
    codes
      "const (\n\tquote = `[\"']`\n)\nvar builtinRules = []Rule{\n\t{\n\t\tID: \"aws\",\n\t\tRegex: MustCompile(fmt.Sprintf(`%sx{2}`, quote)),\n\t\tKeywords: []string{\"AKIA\"},\n\t},\n}\n"

abbrev body : Text
body =
    codes
      "\t\tID: \"aws\",\n\t\tRegex: MustCompile(fmt.Sprintf(`%sx{2}`, quote)),\n\t\tKeywords: []string{\"AKIA\"},"

bodies_run : split_trivy_rule_bodies go_source ≡ body ∷ []
unfolding split_trivy_rule_bodies bodies_from occurrences opens_body split_lines starts_with
    from_first is_space join
bodies_run = refl

fields_run :
    (read_trivy_quoted_field body (codes "ID") ≡ some (codes "aws"))
    × (read_trivy_compiled_pattern body (codes "Regex") (read_trivy_regex_fragments go_source)
        ≡ some (codes "[\"']x{2}"))
unfolding read_trivy_quoted_field read_trivy_compiled_pattern read_trivy_regex_fragments
    read_trivy_field resolve_trivy_regex exec_truthy fill split_commas text_eq trim is_space get put
fields_run = (refl, refl)

abbrev slice : UpstreamSlice
slice = slice_of sample_host (codes "trivy") (spdx (codes "Apache-2.0")) (codes "v0.6")

abbrev file : Text
file = codes "upstream/trivy/pkg/fanal/secret/builtin-rules.go"

abbrev same_case : Text → Text
same_case t = t

trivy_rows-All_example :
    All
      (IsTrivyRow same_case sample_engine slice file go_source)
      (trivy_rows same_case sample_engine slice file go_source (body ∷ []))
trivy_rows-All_example = trivy_rows-All same_case sample_engine slice file go_source (body ∷ [])
