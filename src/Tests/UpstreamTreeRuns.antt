-- ===== src/Tests/UpstreamTreeRuns.antt =====
-- upstream-tree.mts
use socket_scan_patterns.Prelude.{true, false, [], ◌∷◌, ◌≡◌, ◌⊎◌, refl}
use socket_scan_patterns.Sorting.{sort_by}
use socket_scan_patterns.Text.Order.{sort_texts, text_compare}
use socket_scan_patterns.Text.{Text, codes, ends_with, includes, starts_with, text_eq}
use socket_scan_patterns.UpstreamTree.Gate.{is_allowed_copyleft_path-cases}
use socket_scan_patterns.UpstreamTree.{
  Entries, end, file, directory, has_slash, named_at_root, copyleft_root_metadata, walk_slice_files,
  is_allowed_copyleft_path, list_non_test_files,
}

abbrev tree : Entries
tree = directory (codes ".git") (file (codes "config") end) (
    file (codes "LICENSE") (
      directory (codes "readme") (file (codes "readme.go") (file (codes "readme_test.go") end))
        (file (codes "main.go") end)))

abbrev same : Text → Text
same path = path

gate_run : list_non_test_files same tree ≡ codes "main.go" ∷ codes "readme/readme.go" ∷ []
unfolding list_non_test_files is_allowed_copyleft_path walk_slice_files copyleft_root_metadata
    named_at_root has_slash ends_with includes starts_with text_eq sort_texts sort_by text_compare
gate_run = refl

license_run : is_allowed_copyleft_path same (codes "LICENSE.md") ≡ true
unfolding is_allowed_copyleft_path copyleft_root_metadata named_at_root has_slash ends_with includes
    starts_with text_eq
license_run = refl

is_allowed_copyleft_path-cases_example :
    (ends_with (codes "_test.go") (codes "LICENSE.md") ≡ true)
    ⊎ ((includes (codes "/testdata/") (codes "LICENSE.md") ≡ true)
        ⊎ (has_slash (codes "LICENSE.md") ≡ false))
is_allowed_copyleft_path-cases_example =
    is_allowed_copyleft_path-cases same (codes "LICENSE.md") license_run
