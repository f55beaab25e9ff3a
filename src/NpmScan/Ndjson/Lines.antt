-- ===== src/NpmScan/Ndjson/Lines.antt =====
-- The chunks of a stream are read as the lines of the text that they make up.
use socket_scan_patterns.NpmScan.Ndjson.{
  Platform, Reason, text, Progress, start, Step, stop, go, Drained, stopped, left, then_step,
  then_drain, verdict, consume_line, drain, finish, take_chunk, read_chunks, read_full_scan_ndjson,
  full_scan_max_bytes, full_scan_max_line_length,
}
use socket_scan_patterns.Prelude.{
  ℕ, ◌+◌, ◌≤◌, false, List, [], ◌∷◌, ◌++◌, ◌≡◌, inl, inr, refl, sym, ap, ◌∙◌, arith, Bool-cases,
  ltb, ◌==◌, if◌then◌else◌, length, length-append, All, map, append_assoc, append-nil,
}
use socket_scan_patterns.Text.{Text}

-- the lines of a text, of which the first one has begun
abbrev pub lines_from : Text → Text → List Text
lines_from line [] = line ∷ []
lines_from line (c ∷ cs) =
    let ended = line ∷ lines_from [] cs in
    let longer = lines_from (line ++ c ∷ []) cs in if c == b'\n' then ended else longer

-- the text of all chunks
abbrev pub joined : List Text → Text
joined [] = []
joined (t ∷ ts) = t ++ joined ts

abbrev pub IsShort : List Text → Type 0
IsShort = All (λ line. length line ≤ full_scan_max_line_length)

-- no `\n` stands in a text
abbrev IsFlat : Text → Type 0
IsFlat = All (λ c. (c == b'\n') ≡ false)

IsFlat-concat : (line : Text) (c : ℕ) → IsFlat line → (c == b'\n') ≡ false → IsFlat (line ++ c ∷ [])
IsFlat-concat [] c f e = (e, tt)
IsFlat-concat (d ∷ ds) c (g, f) e = (g, IsFlat-concat ds c f e)

short_first :
    (line more : Text) → IsShort (lines_from line more) → length line ≤ full_scan_max_line_length
short_first line [] (h, _) = h
short_first line (c ∷ cs) h = elim (Bool-cases (c == b'\n')) [
  | inl e ↦ (rw e at h).0
  | inr e ↦
      let longer = short_first (line ++ c ∷ []) cs (rw e at h) in
      omega (arith, length-append line (c ∷ []))
]

not_long : (n : ℕ) → n ≤ full_scan_max_line_length → ltb full_scan_max_line_length n ≡ false
not_long n h = ground arith

module _ (platform : Platform) (scan_id : Text) where
  -- `consumeLine` on one line after the other
  abbrev pub read_lines : List Text → Progress → Step
  read_lines [] s = go s
  read_lines (line ∷ lines) s =
      then_step (consume_line platform scan_id line s) (λ next. read_lines lines next)

  -- a line without `\n` does not end
  drain-flat :
      (line flat more : Text) (s : Progress)
      → IsFlat flat
      → drain platform scan_id line (flat ++ more) s ≡ drain platform scan_id (line ++ flat) more s
  unfolding drain
  drain-flat line [] more s f =
      ap (λ (l : Text). drain platform scan_id l more s) (sym (append-nil line))
  drain-flat line (c ∷ cs) more s (e, f) =
      rw (e, drain)
        (drain-flat (line ++ c ∷ []) cs more s f
          ∙ ap (λ (l : Text). drain platform scan_id l more s) (append_assoc line (c ∷ []) cs))

  -- How far a text is read: up to a reason, or up to the line that it leaves open.
  data IsDrained (all : List Text) (s : Progress) (more : Text) (d : Drained) : Type 0 where
    at_reason : (r : Reason) → d ≡ stopped r → read_lines all s ≡ stop r → IsDrained all s more d
    at_line :
        (line : Text) (next : Progress)
        → d ≡ left line next
        → IsFlat line
        → IsShort (lines_from line more)
        → read_lines all s ≡ read_lines (lines_from line more) next
        → IsDrained all s more d

  after_line :
      (line rest more : Text) (s : Progress) (result : Step)
      → consume_line platform scan_id line s ≡ result
      → length line ≤ full_scan_max_line_length
      → ((next : Progress)
          → result ≡ go next
          → IsDrained
              (lines_from [] (rest ++ more))
              next
              more
              (drain platform scan_id [] rest next))
      → IsDrained
          (line ∷ lines_from [] (rest ++ more))
          s
          more
          (then_drain result (λ next. drain platform scan_id [] rest next))
  after_line line rest more s (stop r) e short ih = at_reason r refl (rw e refl)
  after_line line rest more s (go next) e short ih = elim (ih next refl) [
    | at_reason r d all ↦ at_reason r d (rw e all)
    | at_line l after d flat shorts all ↦ at_line l after d flat shorts (rw e all)
  ]

  drain-IsDrained :
      (line rest more : Text) (s : Progress)
      → IsFlat line
      → IsShort (lines_from line (rest ++ more))
      → IsDrained (lines_from line (rest ++ more)) s more (drain platform scan_id line rest s)
  unfolding drain
  drain-IsDrained line [] more s f h = at_line line s refl f h refl
  drain-IsDrained line (c ∷ cs) more s f h = elim (Bool-cases (c == b'\n')) [
    | inl e ↦
        let (short, shorts) = rw e at h in
        rw (e, drain, not_long (length line) short)
          (after_line line cs more s (consume_line platform scan_id line s) refl short
            (λ next _. drain-IsDrained [] cs more next tt shorts))
    | inr e ↦
        rw (e, drain)
          (drain-IsDrained (line ++ c ∷ []) cs more s (IsFlat-concat line c f e) (rw e at h))
  ]

  then_step-go : (result : Step) → then_step result (λ next. go next) ≡ result
  then_step-go (stop r) = refl
  then_step-go (go s) = refl

  -- the size of texts in bytes
  abbrev pub bytes_of : List Text → ℕ
  bytes_of [] = 0
  bytes_of (t ∷ ts) = platform.byte_length t + bytes_of ts

  read_chunks-lines :
      (ts : List Text) (total : ℕ) (decoder : platform.Decoder) (pending : Text) (s : Progress)
      → platform.flush decoder ≡ []
      → IsFlat pending
      → total + bytes_of ts ≤ full_scan_max_bytes
      → IsShort (lines_from pending (joined ts))
      → read_chunks platform scan_id (map text ts) total decoder pending s
        ≡ verdict (read_lines (lines_from pending (joined ts)) s)
  unfolding read_chunks take_chunk finish
  read_chunks-lines [] total decoder pending s flushed flat fits shorts =
      rw
        (
          flushed,
          append-nil pending,
          not_long (length pending) shorts.0,
          then_step-go (consume_line platform scan_id pending s),
        )
        refl
  read_chunks-lines (t ∷ ts) total decoder pending s flushed flat fits shorts =
      let size = total + platform.byte_length t in
      let room : ltb full_scan_max_bytes size ≡ false = ground arith in
      let drained = drain-flat [] pending t s flat in
      elim (drain-IsDrained pending t (joined ts) s flat shorts) [
        | at_reason r d all ↦ rw (room, drained, d, all) refl
        | at_line line next d flat' shorts' all ↦
            rw
              (room, drained, d, all, not_long (length line) (short_first line (joined ts) shorts'))
              (read_chunks-lines ts size decoder line next flushed flat' (omega arith) shorts')
      ]

  -- A stream of texts within the limits on the bytes and on each line, of a decoder that holds
  -- nothing back, is read as consuming the lines of the whole text one by one, wherever the chunks
  -- are cut.
  pub read_full_scan_ndjson-lines :
      (ts : List Text) (decoder : platform.Decoder)
      → platform.flush decoder ≡ []
      → bytes_of ts ≤ full_scan_max_bytes
      → IsShort (lines_from [] (joined ts))
      → read_full_scan_ndjson platform scan_id decoder (map text ts)
        ≡ verdict (read_lines (lines_from [] (joined ts)) start)
  unfolding read_full_scan_ndjson
  read_full_scan_ndjson-lines ts decoder flushed fits shorts =
      read_chunks-lines ts 0 decoder [] start flushed tt (omega arith) shorts
