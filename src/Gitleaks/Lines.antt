-- ===== src/Gitleaks/Lines.antt =====
-- The kinds of lines, as texts.
use socket_scan_patterns.Gitleaks.{opens_rule}
use socket_scan_patterns.Prelude.{
  ℕ, true, false, [], ◌∷◌, ◌++◌, ◌≡◌, ◌↔◌, refl, ap, ◌∙◌, and_iff, every, Bool-cases, inl, inr,
}
use socket_scan_patterns.Text.Equality.{starts_with-split, starts_with-append}
use socket_scan_patterns.Text.{Text, codes, is_space, starts_with, trim_start}

-- White space, and behind it a text that starts so.
pub record IsIndented (start line : Text) : Type 0 where
  pub indent : Text
  pub is_white : every is_space indent ≡ true
  pub behind : Text
  pub line_is : line ≡ indent ++ (start ++ behind)

-- A line that opens a rule, a header of any table, and one of the rule's own subtables.
abbrev pub IsOpener : Text → Type 0
IsOpener = IsIndented (codes "[[rules]]")

abbrev pub IsHeader : Text → Type 0
IsHeader = IsIndented (codes "[")

abbrev pub IsOwnHeader : Text → Type 0
IsOwnHeader = IsIndented (codes "[rules.")

trim_start-split :
    (line : Text)
    → (indent : Text) × (every is_space indent ≡ true) × (line ≡ indent ++ trim_start line)
unfolding trim_start
trim_start-split [] = ([], refl, refl)
trim_start-split (c ∷ cs) = elim (Bool-cases (is_space c)) [
  | inr e ↦ ([], refl, rw e refl)
  | inl e ↦
      let (indent, white, split) = trim_start-split cs in
      (c ∷ indent, (and_iff _ _).1 (e, white), rw e (ap (◌∷◌ c) split))
]

trim_start-append :
    (indent rest : Text)
    → every is_space indent ≡ true
    → trim_start (indent ++ rest) ≡ trim_start rest
unfolding trim_start
trim_start-append [] rest h = refl
trim_start-append (c ∷ indent) rest h =
    let (first, white) = (and_iff (is_space c) (every is_space indent)).0 h in
    rw first (trim_start-append indent rest white)

trim_start-IsIndented_iff :
    (c : ℕ) (cs line : Text)
    → is_space c ≡ false
    → (starts_with (c ∷ cs) (trim_start line) ≡ true) ↔ IsIndented (c ∷ cs) line
unfolding trim_start
trim_start-IsIndented_iff c cs line mark = (
  λ h.
      let (indent, white, split) = trim_start-split line in
      let (behind, starts) = starts_with-split (c ∷ cs) (trim_start line) h in
      record {
        indent = indent;
        is_white = white;
        behind = behind;
        line_is = split ∙ ap (λ (t : Text). indent ++ t) starts;
      },
  λ i.
      let shown : trim_start line ≡ (c ∷ cs) ++ i.behind =
        ap trim_start i.line_is
        ∙ trim_start-append i.indent ((c ∷ cs) ++ i.behind) i.is_white
        ∙ (rw mark refl) in
      rw shown (starts_with-append (c ∷ cs) i.behind),
)

pub opens_rule-IsOpener_iff : (line : Text) → (opens_rule line ≡ true) ↔ IsOpener line
unfolding is_space
opens_rule-IsOpener_iff line = trim_start-IsIndented_iff b'[' _ line refl

pub starts_with-IsHeader_iff :
    (line : Text) → (starts_with (codes "[") (trim_start line) ≡ true) ↔ IsHeader line
unfolding is_space
starts_with-IsHeader_iff line = trim_start-IsIndented_iff b'[' _ line refl

pub starts_with-IsOwnHeader_iff :
    (line : Text) → (starts_with (codes "[rules.") (trim_start line) ≡ true) ↔ IsOwnHeader line
unfolding is_space
starts_with-IsOwnHeader_iff line = trim_start-IsIndented_iff b'[' _ line refl
