-- ===== src/Tests/CanonicalRuns.antt =====
-- canonical/patch.mts and canonical/replacements.mts
use socket_scan_patterns.Canonical.Applied.{IsPatched, apply_canonical_replacements-IsPatched}
use socket_scan_patterns.Canonical.Hunk.{
  ReplacementRun, hunk_replacements, consume_hunk_lines, consume_hunk_line, finish_run, runs_of,
  header_counts,
}
use socket_scan_patterns.Canonical.Located.{IsReplaced, replace_unique_run-IsReplaced}
use socket_scan_patterns.Canonical.Patch.{
  select_canonical_patch, select_canonical_text, select_sections, canonical_hunks_are_valid,
}
use socket_scan_patterns.Canonical.Replace.{
  apply_canonical_replacements, apply_text, patch_source, replace_sections, replace_runs,
  replace_unique_run, replace_at, split_at_first, inside_line,
}
use socket_scan_patterns.Canonical.Sections.{select_canonical_patch-all}
use socket_scan_patterns.Canonical.{Utf8, utf8_text, split_sections, sections_from, lines_with_ends}
use socket_scan_patterns.Json.{whole}
use socket_scan_patterns.Prelude.{false, [], ◌∷◌, none, some, ◌≡◌, refl}
use socket_scan_patterns.Regex.{exec, test}
use socket_scan_patterns.Text.Lines.{split_lines}
use socket_scan_patterns.Text.{Text, codes, text_eq, includes, starts_with, ends_with}

abbrev utf8 : Utf8
utf8 = record { to_text = λ b. b; from_text = λ t. t }

abbrev content : Text
content = codes "one\ntwo\nthree\n"

abbrev patch : Text
patch = codes "diff --git a/f b/f\n--- a/f\n+++ b/f\n@@ -1,3 +1,3 @@\n one\n-two\n+TWO\n three\n"

abbrev run : ReplacementRun
run = record { before = codes "two\n"; after = codes "TWO\n" }

hunk_run :
    (hunk_replacements (codes "@@ -1,3 +1,3 @@\n one\n-two\n+TWO\n three\n") ≡ some (run ∷ []))
    × (hunk_replacements (codes "@@ -1,4 +1,3 @@\n one\n-two\n+TWO\n three\n") ≡ none)
    × (hunk_replacements (codes "@@ -1 +1,2 @@\n one\n+two\n") ≡ none)
    × (hunk_replacements (codes "@@ -1 +1 @@\n-a\n+b\n\\ No newline at end of file\n")
        ≡ some (record { before = codes "a\n"; after = codes "b" } ∷ []))
unfolding hunk_replacements lines_with_ends header_counts consume_hunk_lines consume_hunk_line
    finish_run runs_of exec text_eq
hunk_run = (refl, refl, refl, refl)

unique_run :
    (replace_unique_run content run ≡ some (codes "one\nTWO\nthree\n"))
    × (replace_unique_run (codes "two\ntwo\n") run ≡ none)
    × (replace_unique_run (codes "  two\n") run ≡ none)
unfolding replace_unique_run replace_at split_at_first inside_line includes starts_with ends_with
    text_eq
unique_run = (refl, refl, refl)

replace_unique_run-IsReplaced_example : IsReplaced content run (codes "one\nTWO\nthree\n")
replace_unique_run-IsReplaced_example =
    replace_unique_run-IsReplaced content (codes "one\nTWO\nthree\n") run unique_run.0

select_run :
    (select_canonical_patch utf8 patch (codes "f") none ≡ some patch)
    × (select_canonical_patch utf8 patch (codes "g") none ≡ none)
    × (canonical_hunks_are_valid (whole 1 ∷ whole 0 ∷ []) ≡ false)
unfolding select_canonical_patch select_canonical_text select_sections canonical_hunks_are_valid
    split_sections sections_from test includes starts_with
select_run = (refl, refl, refl)

select_canonical_patch-all_example : patch ≡ patch
select_canonical_patch-all_example = select_canonical_patch-all utf8 patch (codes "f") select_run.0

apply_run : apply_canonical_replacements utf8 content patch ≡ some (codes "one\nTWO\nthree\n")
unfolding apply_canonical_replacements apply_text patch_source replace_sections replace_runs
    replace_unique_run replace_at split_at_first inside_line hunk_replacements lines_with_ends
    header_counts consume_hunk_lines consume_hunk_line finish_run runs_of exec utf8_text
    select_canonical_patch select_canonical_text select_sections canonical_hunks_are_valid
    split_sections sections_from split_lines test text_eq includes starts_with ends_with
apply_run = refl

apply_canonical_replacements-IsPatched_example :
    (text delta last : Text) × (utf8_text utf8 content ≡ some text)
    × (utf8_text utf8 patch ≡ some delta)
    × IsPatched text delta last
    × (codes "one\nTWO\nthree\n" ≡ last)
apply_canonical_replacements-IsPatched_example =
    apply_canonical_replacements-IsPatched utf8 content patch apply_run
