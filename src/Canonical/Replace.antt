-- ===== src/Canonical/Replace.antt =====
-- replacements.mts: replacing the runs of all hunks.
use socket_scan_patterns.Canonical.Hunk.{ReplacementRun, hunk_replacements}
use socket_scan_patterns.Canonical.Patch.{select_canonical_patch}
use socket_scan_patterns.Canonical.{Utf8, split_sections, utf8_text}
use socket_scan_patterns.Prelude.{
  ℕ, ◌+◌, Bool, true, false, not, ◌&&◌, ◌||◌, List, [], ◌∷◌, ◌++◌, Option, none, some, ◌==◌,
  if◌then◌else◌, length, drop, is_some, then_option,
}
use socket_scan_patterns.Text.Lines.{split_lines}
use socket_scan_patterns.Text.{Text, codes, includes, starts_with, ends_with}

-- what stands before the first `p`, and what follows from there on: `text.indexOf(p)`
unfoldable pub split_at_first : Text → Text → Option (Text × Text)
split_at_first p [] = if starts_with p [] then some ([], []) else none
split_at_first p (c ∷ cs) =
    let later = split_at_first p cs in
    if starts_with p (c ∷ cs)
    then some ([], c ∷ cs)
    else then_option later (λ (before, rest). some (c ∷ before, rest))

abbrev pub is_empty : Text → Bool
is_empty [] = true
is_empty (c ∷ cs) = false

-- `index > 0 && text.charCodeAt(index - 1) !== 10`, of what stands before the index
unfoldable pub inside_line : Text → Bool
inside_line before = not (is_empty before) && not (ends_with (b'\n' ∷ []) before)

-- `replaceUniqueRun` at an index: what stands before it, and what follows
unfoldable pub replace_at : ReplacementRun → Text → Text → Option Text
replace_at run before rest =
    let behind = drop (length run.before) rest in
    if inside_line before
      || includes run.before (drop 1 rest)
      || (not (ends_with (b'\n' ∷ []) run.before) && not (is_empty behind))
    then none
    else some (before ++ (run.after ++ behind))

-- `replaceUniqueRun`
unfoldable pub replace_unique_run : Text → ReplacementRun → Option Text
replace_unique_run text run =
    then_option (split_at_first run.before text) (λ (before, rest). replace_at run before rest)

-- the loop over the runs
unfoldable pub replace_runs : List ReplacementRun → Text → Option Text
replace_runs [] text = some text
replace_runs (run ∷ runs) text =
    then_option (replace_unique_run text run) (λ next. replace_runs runs next)

-- the loop over the sections: `total` and `text`
unfoldable pub replace_sections : List Text → ℕ → Text → Option (ℕ × Text)
replace_sections [] total text = some (total, text)
replace_sections (section ∷ sections) total text = then_option (hunk_replacements section) λ runs.
    then_option (replace_runs runs text)
      (λ next. replace_sections sections (total + length runs) next)

-- `.split(' b/', 1)[0]`
abbrev until_word : Text → Text → Text
until_word word [] = []
until_word word (c ∷ cs) =
    let rest = until_word word cs in if starts_with word (c ∷ cs) then [] else c ∷ rest

abbrev first_of : List Text → Text
first_of [] = []
first_of (t ∷ ts) = t

-- `source`, which is empty for `undefined`
unfoldable pub patch_source : Text → Text
unfolding split_lines starts_with
patch_source delta =
    let first = first_of (split_lines delta) in
    if starts_with (codes "diff --git a/") first
    then until_word (codes " b/") (drop 13 first)
    else []

abbrev pub sections_behind : List Text → List Text
sections_behind [] = []
sections_behind (header ∷ sections) = sections

abbrev pub changed : ℕ × Text → Option Text
changed (total, text) = if total == 0 then none else some text

-- `applyCanonicalReplacements` on texts
unfoldable pub apply_text : Utf8 → Text → Text → Option Text
apply_text utf8 text delta =
    let source = patch_source delta in
    if is_empty source || not (is_some (select_canonical_patch utf8 delta source none))
    then none
    else then_option (replace_sections (sections_behind (split_sections delta)) 0 text) changed

-- `applyCanonicalReplacements`
unfoldable pub apply_canonical_replacements : Utf8 → List ℕ → List ℕ → Option (List ℕ)
apply_canonical_replacements utf8 content patch = then_option (utf8_text utf8 content) λ text.
    then_option (utf8_text utf8 patch)
      λ delta. then_option (apply_text utf8 text delta) (λ after. some (utf8.from_text after))
