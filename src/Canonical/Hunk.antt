-- ===== src/Canonical/Hunk.antt =====
-- replacements.mts: the runs of a hunk.
use socket_scan_patterns.Canonical.{lines_with_ends}
use socket_scan_patterns.Prelude.{
  ℕ, ◌+◌, ◌-◌, ◌*◌, Bool, not, ◌&&◌, ◌||◌, List, [], ◌∷◌, ◌++◌, Option, none, some, ◌==◌,
  if◌then◌else◌, length, take, then_option,
}
use socket_scan_patterns.Regex.Notation.{◌⨟◌, word, plus, maybe}
use socket_scan_patterns.Regex.{Rx, unit, star, capture, text_start, text_end, exec, group_of}
use socket_scan_patterns.Text.{Text, codes, is_digit, text_eq}

-- `ReplacementRun`
pub record ReplacementRun : Type 0 where
  pub before : Text
  pub after : Text

-- the first code unit of a line, or what `previous` holds at the start
pub data Tag : Type 0 where
  no_tag context removed added : Tag

-- `HunkState`
pub record HunkState : Type 0 where
  pub before : ℕ
  pub after : ℕ
  pub previous : Tag
  pub run : ReplacementRun
  pub runs : List ReplacementRun

abbrev pub no_run : ReplacementRun
no_run = record { before = []; after = [] }

abbrev pub initial : HunkState
initial = record { before = 0; after = 0; previous = no_tag; run = no_run; runs = [] }

-- `finishRun`, by the run
abbrev pub finished : Text → Text → HunkState → Option HunkState
finished [] [] s = some s
finished [] (a ∷ as') s = none
finished (b ∷ bs) after s =
    some
      (record s { runs = s.runs ++ record { before = b ∷ bs; after = after } ∷ []; run = no_run })

unfoldable pub finish_run : HunkState → Option HunkState
finish_run s = finished s.run.before s.run.after s

-- `.slice(0, -1)`
abbrev pub without_last : Text → Text
without_last t = take (length t - 1) t

-- a line that says that a file has no newline at its end
abbrev pub mark_end : Tag → HunkState → Option HunkState
mark_end removed s =
    some (record s { run = record { before = without_last s.run.before; after = s.run.after } })
mark_end added s =
    some (record s { run = record { before = s.run.before; after = without_last s.run.after } })
mark_end context s = some s
mark_end no_tag s = none

abbrev pub is_end_mark : Text → Bool
is_end_mark line =
    text_eq line (codes "\\ No newline at end of file")
    || text_eq line (codes "\\ No newline at end of file\n")

-- `consumeHunkLine`
unfoldable pub consume_hunk_line : HunkState → Text → Option HunkState
consume_hunk_line s [] = none
consume_hunk_line s (tag ∷ line) =
    if tag == b' '
    then finish_run (record s { before = s.before + 1; after = s.after + 1; previous = context })
    else if tag == b'-'
    then some (record s {
      before = s.before + 1;
      previous = removed;
      run = record { before = s.run.before ++ line; after = s.run.after };
    })
    else if tag == b'+'
    then some (record s {
      after = s.after + 1;
      previous = added;
      run = record { before = s.run.before; after = s.run.after ++ line };
    })
    else if is_end_mark (tag ∷ line)
    then mark_end s.previous s
    else none

-- `lines.every(…)`
unfoldable pub consume_hunk_lines : List Text → HunkState → Option HunkState
consume_hunk_lines [] s = some s
consume_hunk_lines (line ∷ lines) s =
    then_option (consume_hunk_line s line) (λ next. consume_hunk_lines lines next)

-- `(?:,(\d+))?` with its number
abbrev count : ℕ → Rx
count n = maybe (word (codes ",") ⨟ capture n (plus (unit is_digit)))

-- /^@@ -\d+(?:,(\d+))? \+\d+(?:,(\d+))? @@[^\n]*\n$/u
abbrev hunk_header : Rx
hunk_header =
    text_start
    ⨟ word (codes "@@ -")
    ⨟ plus (unit is_digit)
    ⨟ count 1
    ⨟ word (codes " +")
    ⨟ plus (unit is_digit)
    ⨟ count 2
    ⨟ word (codes " @@")
    ⨟ star (unit (λ c. not (c == b'\n')))
    ⨟ word (codes "\n")
    ⨟ text_end

-- `Number(text)` of digits. A number that is no longer exact is greater than any count of lines.
abbrev pub decimal : ℕ → Text → ℕ
decimal n [] = n
decimal n (c ∷ cs) = decimal (n * 10 + (c - b'0')) cs

-- `Number(match[n] ?? 1)`
abbrev pub count_of : Option Text → ℕ
count_of none = 1
count_of (some t) = decimal 0 t

-- the line counts of a header
unfoldable pub header_counts : Text → Option (ℕ × ℕ)
unfolding exec
header_counts header =
    then_option (exec hunk_header header)
      (λ m. some (count_of (group_of 1 m), count_of (group_of 2 m)))

-- the checks behind the lines
unfoldable pub runs_of : ℕ × ℕ → HunkState → Option (List ReplacementRun)
runs_of (old, new) s = if s.before == old && s.after == new then some s.runs else none

abbrev pub hunk_of : List Text → Option (List ReplacementRun)
hunk_of [] = none
hunk_of (header ∷ lines) = then_option (header_counts header) λ counts.
    then_option (consume_hunk_lines lines initial)
      (λ s. then_option (finish_run s) (λ done. runs_of counts done))

-- `hunkReplacements`
unfoldable pub hunk_replacements : Text → Option (List ReplacementRun)
hunk_replacements section = hunk_of (lines_with_ends section)
