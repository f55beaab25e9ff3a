-- ===== src/Tests/ComposeRuns.antt =====
-- compose-tables.mts
use mathlib.Core.List.{Mem}
use socket_scan_patterns.Compose.Merging.{IsMerged, merge_row_sets-IsMerged}
use socket_scan_patterns.Compose.Tables.{IsComposed, compose_all_tables-IsComposed}
use socket_scan_patterns.Compose.View.{IsScoped, manifests-secrets_iff}
use socket_scan_patterns.Compose.{
  ComposedTable, manifest_row_set, merge_row_sets, compose_plans, compose_all_tables,
}
use socket_scan_patterns.Emit.{
  DerivedRowSet, Disk, SourceFile, payload, read_string_array_prop, row_set_from, items,
  read_source_row_set, row_set_of, sort_pattern_rules, compare_rules, build_pattern_table,
  collect_duplicates, assert_rule_ids_unique, write_scanner_table,
}
use socket_scan_patterns.Failure.{ok}
use socket_scan_patterns.Prelude.{List, [], ◌∷◌, ◌++◌, ◌≡◌, ◌↔◌, refl}
use socket_scan_patterns.Schema.{PatternRule, agent_configs, manifests, secrets, skills, workflows}
use socket_scan_patterns.Sorting.{sort_by, to_sorted}
use socket_scan_patterns.Tests.Samples.{rule_a, rule_b, rule_c, text_compare-IsCollation}
use socket_scan_patterns.Text.Order.{text_compare, sort_texts}
use socket_scan_patterns.Text.{Text, codes, text_eq}
use socket_scan_patterns.TextSet.{has, add, add_all, get, put}

abbrev file_of : List PatternRule → SourceFile
file_of rules = payload rules (codes "gitleaks@v1" ∷ [])

abbrev derived : Disk
derived = record {
  source_files = record {
    path = λ file. codes "/data/sources/" ++ file;
    files =
        (codes "/data/sources/gitleaks.json", file_of (rule_a ∷ rule_c ∷ []))
        ∷ (codes "/data/sources/trivy.json", file_of (rule_b ∷ []))
        ∷ (codes "/data/sources/agentshield-agent-configs.json", file_of (rule_a ∷ []))
        ∷ (codes "/data/sources/agentshield-skills.json", file_of [])
        ∷ (codes "/data/sources/codex-security.json", file_of (rule_b ∷ []))
        ∷ (codes "/data/sources/skillspector.json", file_of [])
        ∷ (codes "/data/sources/zizmor.json", file_of (rule_a ∷ []))
        ∷ [];
  };
  tables = [];
}

abbrev secret_names : List Text
secret_names = codes "gitleaks" ∷ codes "trivy" ∷ []

abbrev secret_rows : DerivedRowSet
secret_rows = record { rules = rule_a ∷ rule_c ∷ rule_b ∷ []; sources = codes "gitleaks@v1" ∷ [] }

merged_secrets : merge_row_sets secret_names derived ≡ ok secret_rows
unfolding merge_row_sets read_source_row_set row_set_of row_set_from read_string_array_prop get
    text_eq items add_all add has
merged_secrets = refl

merge_row_sets-IsMerged_example : IsMerged derived secret_names secret_rows
merge_row_sets-IsMerged_example =
    merge_row_sets-IsMerged derived secret_names secret_rows merged_secrets

manifests-secrets_iff_example :
    Mem rule_c (build_pattern_table text_compare manifests (manifest_row_set secret_rows)).rules
    ↔ (Mem rule_c (build_pattern_table text_compare secrets secret_rows).rules × IsScoped rule_c)
manifests-secrets_iff_example =
    manifests-secrets_iff text_compare text_compare-IsCollation secret_rows rule_c

abbrev counts : List ComposedTable
counts =
    record { file_name = codes "agent-configs.json"; rule_count = 1; scanner = agent_configs }
    ∷ record { file_name = codes "secrets.json"; rule_count = 3; scanner = secrets }
    ∷ record { file_name = codes "skills.json"; rule_count = 1; scanner = skills }
    ∷ record { file_name = codes "workflows.json"; rule_count = 1; scanner = workflows }
    ∷ record { file_name = codes "manifests.json"; rule_count = 1; scanner = manifests }
    ∷ []

abbrev composed_disk : Disk
composed_disk = (compose_all_tables text_compare derived).1

composed : compose_all_tables text_compare derived ≡ (ok counts, composed_disk)
unfolding compose_all_tables compose_plans merge_row_sets write_scanner_table build_pattern_table
    sort_pattern_rules to_sorted sort_by compare_rules assert_rule_ids_unique collect_duplicates
    read_source_row_set row_set_of row_set_from read_string_array_prop get put text_eq items add_all
    add has text_compare sort_texts
composed = refl

compose_all_tables-IsComposed_example : IsComposed text_compare derived composed_disk
compose_all_tables-IsComposed_example =
    compose_all_tables-IsComposed text_compare counts derived composed_disk composed
