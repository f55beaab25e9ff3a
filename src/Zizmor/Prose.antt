-- ===== src/Zizmor/Prose.antt =====
-- Which lines make up a summary.
use socket_scan_patterns.Prelude.{
  Bool, true, false, not, List, [], ◌∷◌, ◌++◌, ◌≡◌, refl, sym, ap, ◌∙◌, All, Bool-cases, inl, inr,
  append_assoc, append-nil,
}
use socket_scan_patterns.Text.{Text}
use socket_scan_patterns.Zizmor.Docs.{is_not_prose, paragraph_from}

abbrev pub is_prose : Text → Bool
is_prose [] = false
is_prose (c ∷ cs) = not (is_not_prose (c ∷ cs))

-- nothing follows, or a line that is no prose
abbrev pub EndsRun : List Text → Type 0
EndsRun [] = Unit
EndsRun (line ∷ lines) = is_prose line ≡ false

-- The lines start with a run of prose that nothing lengthens.
pub record StartsWithRun (lines run : List Text) : Type 0 where
  pub after : List Text
  pub lines_are : lines ≡ run ++ after
  pub prose : All (λ line. is_prose line ≡ true) run
  pub ends : EndsRun after

-- The lines have a first run of prose, behind lines that are none.
pub record HasFirstRun (lines run : List Text) : Type 0 where
  pub skipped : List Text
  pub rest : List Text
  pub lines_are : lines ≡ skipped ++ rest
  pub no_prose : All (λ line. is_prose line ≡ false) skipped
  pub run_is : StartsWithRun rest run

paragraph_from-run :
    (lines : List Text) (first : Text) (paragraph : List Text)
    → (run : List Text) × StartsWithRun lines run
      × (paragraph_from lines (first ∷ paragraph) ≡ (first ∷ paragraph) ++ run)
unfolding paragraph_from
paragraph_from-run [] first paragraph =
    ([], record { after = []; lines_are = refl; prose = tt; ends = tt }, sym (append-nil _))
paragraph_from-run ([] ∷ lines) first paragraph = (
  [],
  record { after = [] ∷ lines; lines_are = refl; prose = tt; ends = refl },
  sym (append-nil _),
)
paragraph_from-run ((c ∷ cs) ∷ lines) first paragraph = elim (Bool-cases (is_not_prose (c ∷ cs))) [
  | inl e ↦ (
    [],
    record { after = (c ∷ cs) ∷ lines; lines_are = refl; prose = tt; ends = rw e refl },
    rw e (sym (append-nil _)),
  )
  | inr e ↦
      let (run, starts, same) = paragraph_from-run lines first (paragraph ++ (c ∷ cs) ∷ []) in
      (
        (c ∷ cs) ∷ run,
        record {
          after = starts.after;
          lines_are = ap (λ (ls : List Text). (c ∷ cs) ∷ ls) starts.lines_are;
          prose = (rw e refl, starts.prose);
          ends = starts.ends;
        },
        rw e (same ∙ append_assoc (first ∷ paragraph) ((c ∷ cs) ∷ []) run),
      )
]

skip_one :
    (line : Text) (lines run : List Text)
    → is_prose line ≡ false
    → HasFirstRun lines run
    → HasFirstRun (line ∷ lines) run
skip_one line lines run e h = record {
  skipped = line ∷ h.skipped;
  rest = h.rest;
  lines_are = ap (λ (ls : List Text). line ∷ ls) h.lines_are;
  no_prose = (e, h.no_prose);
  run_is = h.run_is;
}

-- A summary is made of the first run of prose: the lines before it are none, and it ends only
-- where a line that is none follows or the section ends.
pub paragraph_from-HasFirstRun : (lines : List Text) → HasFirstRun lines (paragraph_from lines [])
unfolding paragraph_from
paragraph_from-HasFirstRun [] = record {
  skipped = [];
  rest = [];
  lines_are = refl;
  no_prose = tt;
  run_is = record { after = []; lines_are = refl; prose = tt; ends = tt };
}
paragraph_from-HasFirstRun ([] ∷ lines) =
    skip_one [] lines _ refl (paragraph_from-HasFirstRun lines)
paragraph_from-HasFirstRun ((c ∷ cs) ∷ lines) = elim (Bool-cases (is_not_prose (c ∷ cs))) [
  | inl e ↦ rw e (skip_one (c ∷ cs) lines _ (rw e refl) (paragraph_from-HasFirstRun lines))
  | inr e ↦
      let (run, starts, same) = paragraph_from-run lines (c ∷ cs) [] in
      rw (e, same)
        (record {
          skipped = [];
          rest = (c ∷ cs) ∷ lines;
          lines_are = refl;
          no_prose = tt;
          run_is = record {
            after = starts.after;
            lines_are = ap (λ (ls : List Text). (c ∷ cs) ∷ ls) starts.lines_are;
            prose = (rw e refl, starts.prose);
            ends = starts.ends;
          };
        })
]
