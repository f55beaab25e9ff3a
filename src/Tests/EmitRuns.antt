-- ===== src/Tests/EmitRuns.antt =====
-- emit-table.mts
use mathlib.Core.List.{Mem, Nodup, Perm, Pairwise}
use mathlib.Core.List.Perm
use socket_scan_patterns.Emit.Files.{IsWritten, write_scanner_table_lem}
use socket_scan_patterns.Emit.Order.{sort_pattern_rules-eq_of_perm, sort_pattern_rules-worst_first}
use socket_scan_patterns.Emit.Unique.{
  ids, assert_rule_ids_unique-ok_iff, assert_rule_ids_unique-err,
}
use socket_scan_patterns.Emit.{
  Disk, severity_rank, collect_duplicates, assert_rule_ids_unique, compare_rules,
  sort_pattern_rules, build_pattern_table, write_scanner_table,
}
use socket_scan_patterns.Failure.{Failure, ok, err, duplicate_ids}
use socket_scan_patterns.Prelude.{◌+◌, ◌≤◌, [], ◌∷◌, ◌++◌, ◌≡◌, ◌↔◌, ◌⊎◌, refl, length, All}
use socket_scan_patterns.Schema.{secrets}
use socket_scan_patterns.Sorting.{sort_by, to_sorted}
use socket_scan_patterns.Tests.Samples.{
  rule_a, rule_b, rule_c, row_set, text_compare-IsCollation, a_b-HasDistinctIds,
}
use socket_scan_patterns.Text.Order.{text_compare}
use socket_scan_patterns.Text.{codes}
use socket_scan_patterns.TextSet.{has, add, add_all}

sorted_rules :
    sort_pattern_rules text_compare (rule_a ∷ rule_b ∷ rule_c ∷ []) ≡ rule_b ∷ rule_c ∷ rule_a ∷ []
unfolding sort_pattern_rules to_sorted sort_by compare_rules text_compare
sorted_rules = refl

repeated_ids :
    assert_rule_ids_unique (rule_a ∷ rule_b ∷ rule_a ∷ []) (codes "compose:secrets")
    ≡ err (duplicate_ids (codes "compose:secrets") (codes "a" ∷ []) 0)
unfolding assert_rule_ids_unique collect_duplicates has add
repeated_ids = refl

sort_pattern_rules-eq_of_perm_example :
    sort_pattern_rules text_compare (rule_a ∷ rule_b ∷ [])
    ≡ sort_pattern_rules text_compare (rule_b ∷ rule_a ∷ [])
sort_pattern_rules-eq_of_perm_example =
    sort_pattern_rules-eq_of_perm text_compare text_compare-IsCollation (rule_a ∷ rule_b ∷ [])
      (rule_b ∷ rule_a ∷ []) a_b-HasDistinctIds (Perm.swap rule_b rule_a [])

sort_pattern_rules-worst_first_example :
    Pairwise
      (λ a b. severity_rank a.severity ≤ severity_rank b.severity)
      (sort_pattern_rules text_compare row_set.rules)
    × Perm (sort_pattern_rules text_compare row_set.rules) row_set.rules
sort_pattern_rules-worst_first_example =
    sort_pattern_rules-worst_first text_compare text_compare-IsCollation row_set.rules

assert_rule_ids_unique-ok_iff_example :
    (assert_rule_ids_unique row_set.rules (codes "compose:secrets") ≡ ok tt)
    ↔ Nodup (ids row_set.rules)
assert_rule_ids_unique-ok_iff_example =
    assert_rule_ids_unique-ok_iff row_set.rules (codes "compose:secrets")

assert_rule_ids_unique-err_example :
    (length (codes "a" ∷ []) ≤ 5)
    × (length (codes "a" ∷ []) + 0 + length (add_all (ids (rule_a ∷ rule_b ∷ rule_a ∷ [])) [])
        ≡ length (rule_a ∷ rule_b ∷ rule_a ∷ []))
    × All (λ t. Mem t (ids (rule_a ∷ rule_b ∷ rule_a ∷ []))) (codes "a" ∷ [])
assert_rule_ids_unique-err_example =
    assert_rule_ids_unique-err (rule_a ∷ rule_b ∷ rule_a ∷ []) (codes "compose:secrets")
      (codes "compose:secrets") (codes "a" ∷ []) 0 repeated_ids

abbrev no_files : Disk
no_files = record {
  source_files = record { path = λ file. codes "/data/sources/" ++ file; files = [] };
  tables = [];
}

write_scanner_table_lem_example :
    ((¬ Nodup (ids (build_pattern_table text_compare secrets row_set).rules))
      × ((e : Failure) × (write_scanner_table text_compare secrets
              (codes "secrets.json")
              row_set
              no_files
            ≡ (err e, no_files))))
    ⊎ ((after : Disk) × (write_scanner_table text_compare secrets
            (codes "secrets.json")
            row_set
            no_files
          ≡ (ok tt, after))
        × IsWritten text_compare secrets (codes "secrets.json") row_set no_files after)
write_scanner_table_lem_example =
    write_scanner_table_lem text_compare secrets (codes "secrets.json") row_set no_files
