-- ===== src/Canonical/Applied.antt =====
-- What applying a patch does.
use socket_scan_patterns.Canonical.Hunk.{
  ReplacementRun, HunkState, initial, finished, finish_run, mark_end, consume_hunk_line,
  consume_hunk_lines, header_counts, runs_of, hunk_of, hunk_replacements, removed, added, context,
  no_tag, is_end_mark, Tag,
}
use socket_scan_patterns.Canonical.Located.{IsReplaced, replace_unique_run-IsReplaced}
use socket_scan_patterns.Canonical.Replace.{
  replace_unique_run, replace_runs, replace_sections, is_empty, sections_behind, changed,
  apply_text, apply_canonical_replacements,
}
use socket_scan_patterns.Canonical.{Utf8, split_sections, lines_with_ends, utf8_text, behind_guard}
use socket_scan_patterns.Prelude.{
  ℕ, ◌+◌, ◌<◌, false, ◌&&◌, List, [], ◌∷◌, ◌++◌, Option, some, ◌==◌, ◌≡◌, refl, sym, arith, length,
  All, Bool-cases, inl, inr, some_injective, length-append, subst, then_option, then_option-some,
}
use socket_scan_patterns.Text.{Text}

-- a run that removes something
abbrev pub Removes : ReplacementRun → Type 0
Removes run = is_empty run.before ≡ false

-- The runs, each replaced in the text that the one before it left.
pub data IsApplied : Text → List ReplacementRun → Text → Type 0 where
  unchanged : {text : Text} → IsApplied text [] text
  then_run :
      {text next last : Text} {run : ReplacementRun} {runs : List ReplacementRun}
      → Removes run
      → IsReplaced text run next
      → IsApplied next runs last
      → IsApplied text (run ∷ runs) last

-- the runs of all hunks
unfoldable pub all_runs : List Text → Option (List ReplacementRun)
all_runs [] = some []
all_runs (section ∷ sections) =
    let rest = all_runs sections in
    then_option (hunk_replacements section)
      (λ runs. then_option rest (λ others. some (runs ++ others)))

AllRemove : HunkState → Type 0
AllRemove s = All Removes s.runs

All-concat :
    (runs : List ReplacementRun) (run : ReplacementRun)
    → All Removes runs
    → Removes run
    → All Removes (runs ++ run ∷ [])
All-concat [] run h r = (r, tt)
All-concat (first ∷ runs) run (f, h) r = (f, All-concat runs run h r)

finished-AllRemove :
    (before after : Text) (s : HunkState) {next : HunkState}
    → AllRemove s
    → finished before after s ≡ some next
    → AllRemove next
unfolding AllRemove
finished-AllRemove [] [] s h e = subst (λ (n : HunkState). All Removes n.runs) (some_injective e) h
finished-AllRemove [] (a ∷ as') s h e = cc
finished-AllRemove (b ∷ bs) after s h e =
    subst (λ (n : HunkState). All Removes n.runs) (some_injective e) (All-concat s.runs _ h refl)

mark_end-AllRemove :
    (tag : Tag) (s : HunkState) {next : HunkState}
    → AllRemove s
    → mark_end tag s ≡ some next
    → AllRemove next
unfolding AllRemove
mark_end-AllRemove removed s h e =
    subst (λ (n : HunkState). All Removes n.runs) (some_injective e) h
mark_end-AllRemove added s h e = subst (λ (n : HunkState). All Removes n.runs) (some_injective e) h
mark_end-AllRemove context s h e =
    subst (λ (n : HunkState). All Removes n.runs) (some_injective e) h
mark_end-AllRemove no_tag s h e = cc

consume_hunk_line-AllRemove :
    (s : HunkState) (line : Text) {next : HunkState}
    → AllRemove s
    → consume_hunk_line s line ≡ some next
    → AllRemove next
unfolding consume_hunk_line finish_run AllRemove
consume_hunk_line-AllRemove s [] h e = cc
consume_hunk_line-AllRemove s (tag ∷ line) h e = elim (Bool-cases (tag == b' ')) [
  | inl a ↦ finished-AllRemove s.run.before s.run.after _ h (rw a at e)
  | inr a ↦ elim (Bool-cases (tag == b'-')) [
    | inl b ↦ subst (λ (n : HunkState). All Removes n.runs) (some_injective (rw (a, b) at e)) h
    | inr b ↦ elim (Bool-cases (tag == b'+')) [
      | inl c ↦ subst (λ (n : HunkState). All Removes n.runs) (some_injective (rw (a, b, c) at e)) h
      | inr c ↦ elim (Bool-cases (is_end_mark (tag ∷ line))) [
        | inl d ↦ mark_end-AllRemove s.previous s h (rw (a, b, c, d) at e)
        | inr d ↦ cc (rw (a, b, c, d) at e)
      ]
    ]
  ]
]

consume_hunk_lines-AllRemove :
    (lines : List Text) (s : HunkState) {next : HunkState}
    → AllRemove s
    → consume_hunk_lines lines s ≡ some next
    → AllRemove next
unfolding consume_hunk_lines
consume_hunk_lines-AllRemove [] s h e = subst AllRemove (some_injective e) h
consume_hunk_lines-AllRemove (line ∷ lines) s h e =
    let (mid, one, rest) = then_option-some (consume_hunk_line s line) _ e in
    consume_hunk_lines-AllRemove lines mid (consume_hunk_line-AllRemove s line h one) rest

runs_of-eq :
    (counts : ℕ × ℕ) (s : HunkState) {runs : List ReplacementRun}
    → runs_of counts s ≡ some runs
    → s.runs ≡ runs
unfolding runs_of
runs_of-eq (old, new) s h = elim (Bool-cases (s.before == old && s.after == new)) [
  | inl e ↦ some_injective (rw e at h)
  | inr e ↦ cc (rw e at h)
]

hunk_of-All :
    (lines : List Text) {runs : List ReplacementRun} → hunk_of lines ≡ some runs → All Removes runs
unfolding AllRemove finish_run
hunk_of-All [] h = cc
hunk_of-All (header ∷ lines) h =
    let (counts, _, h1) = then_option-some (header_counts header) _ h in
    let (s, consumed, h2) = then_option-some (consume_hunk_lines lines initial) _ h1 in
    let (done, finish, h3) = then_option-some (finish_run s) _ h2 in
    subst (All Removes) (runs_of-eq counts done h3) (
      finished-AllRemove s.run.before s.run.after s
        (consume_hunk_lines-AllRemove lines initial tt consumed) finish)

hunk_replacements-All :
    (section : Text) {runs : List ReplacementRun}
    → hunk_replacements section ≡ some runs
    → All Removes runs
unfolding hunk_replacements
hunk_replacements-All section h = hunk_of-All (lines_with_ends section) h

replace_runs-IsApplied :
    (runs : List ReplacementRun) (text : Text) {last : Text}
    → All Removes runs
    → replace_runs runs text ≡ some last
    → IsApplied text runs last
unfolding replace_runs
replace_runs-IsApplied [] text h e = subst (IsApplied text []) (some_injective e) unchanged
replace_runs-IsApplied (run ∷ runs) text (r, h) e =
    let (next, one, rest) = then_option-some (replace_unique_run text run) _ e in
    then_run r (replace_unique_run-IsReplaced text next run one)
      (replace_runs-IsApplied runs next h rest)

IsApplied-append :
    {a b c : Text} {runs others : List ReplacementRun}
    → IsApplied a runs b
    → IsApplied b others c
    → IsApplied a (runs ++ others) c
IsApplied-append unchanged k = k
IsApplied-append (then_run r one rest) k = then_run r one (IsApplied-append rest k)

-- What the loops leave: the runs, the text, and how many there were.
record IsLooped (sections : List Text) (total : ℕ) (text : Text) (end : ℕ × Text) : Type 0 where
  runs : List ReplacementRun
  found : all_runs sections ≡ some runs
  applied : IsApplied text runs end.1
  counted : end.0 ≡ total + length runs

replace_sections-IsLooped :
    (sections : List Text) (total : ℕ) (text : Text) (end : ℕ × Text)
    → replace_sections sections total text ≡ some end
    → IsLooped sections total text end
unfolding replace_sections all_runs
replace_sections-IsLooped [] total text end e =
    subst (IsLooped [] total text) (some_injective e)
      (record { runs = []; found = refl; applied = unchanged; counted = omega arith })
replace_sections-IsLooped (section ∷ sections) total text end e =
    let (runs, hunk, h1) = then_option-some (hunk_replacements section) _ e in
    let (next, replaced, h2) = then_option-some (replace_runs runs text) _ h1 in
    let rest = replace_sections-IsLooped sections (total + length runs) next end h2 in
    record {
      runs = runs ++ rest.runs;
      found = rw (hunk, rest.found) refl;
      applied =
          IsApplied-append
            (replace_runs-IsApplied runs text (hunk_replacements-All section hunk) replaced)
            rest.applied;
      counted = omega (arith, rest.counted, length-append runs rest.runs);
    }

changed-some : (n : ℕ) (t : Text) {last : Text} → changed (n, t) ≡ some last → (0 < n) × (t ≡ last)
changed-some n t h = elim (Bool-cases (n == 0)) [
  | inl e ↦ cc (rw e at h)
  | inr e ↦ (ground arith, some_injective (rw e at h))
]

-- What a patch did to a text.
pub record IsPatched (text delta last : Text) : Type 0 where
  pub runs : List ReplacementRun
  pub found : all_runs (sections_behind (split_sections delta)) ≡ some runs
  pub some_run : 0 < length runs
  pub applied : IsApplied text runs last

apply_text-IsPatched :
    (utf8 : Utf8) (text delta : Text) {last : Text}
    → apply_text utf8 text delta ≡ some last
    → IsPatched text delta last
unfolding apply_text
apply_text-IsPatched utf8 text delta h =
    let sections = sections_behind (split_sections delta) in
    let (_, looped) = behind_guard _ (then_option (replace_sections sections 0 text) changed) h in
    let ((n, t), ended, made) =
      then_option-some (replace_sections sections 0 text) changed looped in
    let loop = replace_sections-IsLooped sections 0 text (n, t) ended in
    let (positive, same) = changed-some n t made in
    record {
      runs = loop.runs;
      found = loop.found;
      some_run = omega (arith, positive, loop.counted);
      applied = subst (IsApplied text loop.runs) same loop.applied;
    }

-- Where a patch applies, content and patch are texts, all hunks of the patch give runs, at least
-- one in all, and the result comes of these runs in order, each replacing a nonempty text that
-- stands exactly once in the text that the run before it left, from the begin of a line on and up
-- to the end of one.
pub apply_canonical_replacements-IsPatched :
    (utf8 : Utf8) (content patch : List ℕ) {bytes : List ℕ}
    → apply_canonical_replacements utf8 content patch ≡ some bytes
    → (text delta last : Text) × (utf8_text utf8 content ≡ some text)
      × (utf8_text utf8 patch ≡ some delta)
      × IsPatched text delta last
      × (bytes ≡ utf8.from_text last)
unfolding apply_canonical_replacements
apply_canonical_replacements-IsPatched utf8 content patch h =
    let (text, read, h1) = then_option-some (utf8_text utf8 content) _ h in
    let (delta, read', h2) = then_option-some (utf8_text utf8 patch) _ h1 in
    let (last, applied, made) = then_option-some (apply_text utf8 text delta) _ h2 in
    (
      text,
      delta,
      last,
      read,
      read',
      apply_text-IsPatched utf8 text delta applied,
      sym (some_injective made),
    )
