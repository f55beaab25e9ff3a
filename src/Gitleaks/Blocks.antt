-- ===== src/Gitleaks/Blocks.antt =====
-- The loop over the lines, against a description of the blocks.
use socket_scan_patterns.Gitleaks.Lines.{
  IsOpener, IsHeader, IsOwnHeader, opens_rule-IsOpener_iff, starts_with-IsHeader_iff,
  starts_with-IsOwnHeader_iff,
}
use socket_scan_patterns.Gitleaks.{opens_rule, ends_rule, split_from, split_gitleaks_rule_blocks}
use socket_scan_patterns.Prelude.{
  Bool, true, false, not, ◌&&◌, ◌||◌, List, [], ◌∷◌, ◌++◌, Option, none, some, ◌≡◌, refl, sym, ap,
  ◌∙◌, append_assoc, append-nil, map, if◌then◌else◌, Bool-cases, inl, inr,
}
use socket_scan_patterns.Text.Lines.{split_lines}
use socket_scan_patterns.Text.{Text, codes, join, starts_with, trim_start}

-- What lines give: the bodies of the blocks that open in them, and, with a block open, the lines
-- that it still takes. A block ends at the next line that opens a rule, and at a header that is
-- not of the form `[rules.…`.
mutual
  pub data Outside : List Text → List (List Text) → Type 0 where
    none_left : Outside [] []
    not_open :
        {line : Text} {lines : List Text} {bodies : List (List Text)}
        → ¬ IsOpener line
        → Outside lines bodies
        → Outside (line ∷ lines) bodies
    opener :
        {line : Text} {lines body : List Text} {bodies : List (List Text)}
        → IsOpener line
        → Inside lines body bodies
        → Outside (line ∷ lines) (body ∷ bodies)

  pub data Inside : List Text → List Text → List (List Text) → Type 0 where
    unclosed : Inside [] [] []
    next :
        {line : Text} {lines body : List Text} {bodies : List (List Text)}
        → IsOpener line
        → Inside lines body bodies
        → Inside (line ∷ lines) [] (body ∷ bodies)
    foreign :
        {line : Text} {lines : List Text} {bodies : List (List Text)}
        → ¬ IsOpener line
        → IsHeader line
        → ¬ IsOwnHeader line
        → Outside lines bodies
        → Inside (line ∷ lines) [] bodies
    own :
        {line : Text} {lines body : List Text} {bodies : List (List Text)}
        → ¬ IsOpener line
        → IsOwnHeader line
        → Inside lines body bodies
        → Inside (line ∷ lines) (line ∷ body) bodies
    plain :
        {line : Text} {lines body : List Text} {bodies : List (List Text)}
        → ¬ IsHeader line
        → ¬ IsOpener line
        → Inside lines body bodies
        → Inside (line ∷ lines) (line ∷ body) bodies

-- the lines of a block: all up to the next line that opens or ends a rule
abbrev body_of : List Text → List Text
body_of [] = []
body_of (line ∷ lines) =
    let rest = body_of lines in if opens_rule line || ends_rule line then [] else line ∷ rest

-- one body for each line that opens a rule: the lines behind it
abbrev bodies_of : List Text → List (List Text)
bodies_of [] = []
bodies_of (line ∷ lines) =
    let rest = bodies_of lines in if opens_rule line then body_of lines ∷ rest else rest

abbrev blocks_of : List Text → List Text
blocks_of lines = map (join (codes "\n")) (bodies_of lines)

-- what the loop still adds, with a block open or none
abbrev remaining : List Text → Option (List Text) → List Text
remaining lines none = blocks_of lines
remaining lines (some current) = join (codes "\n") (current ++ body_of lines) ∷ blocks_of lines

split_from-remaining :
    (lines blocks : List Text) (current : Option (List Text))
    → split_from lines blocks current ≡ blocks ++ remaining lines current
unfolding split_from
split_from-remaining [] blocks none = sym (append-nil blocks)
split_from-remaining [] blocks (some current) =
    ap (λ c. blocks ++ join (codes "\n") c ∷ []) (sym (append-nil current))
split_from-remaining (line ∷ lines) blocks none = elim (Bool-cases (opens_rule line)) [
  | inl opens ↦ rw opens (split_from-remaining lines blocks (some []))
  | inr other ↦ rw other (split_from-remaining lines blocks none)
]
split_from-remaining (line ∷ lines) blocks (some current) = elim (Bool-cases (opens_rule line)) [
  | inl opens ↦
      rw (opens, append-nil current)
        (split_from-remaining lines (blocks ++ join (codes "\n") current ∷ []) (some [])
          ∙ append_assoc blocks (join (codes "\n") current ∷ []) _)
  | inr other ↦ elim (Bool-cases (ends_rule line)) [
    | inl ends ↦
        rw (other, ends, append-nil current)
          (split_from-remaining lines (blocks ++ join (codes "\n") current ∷ []) none
            ∙ append_assoc blocks (join (codes "\n") current ∷ []) _)
    | inr longer ↦
        rw (other, longer)
          (split_from-remaining lines blocks (some (current ++ line ∷ []))
            ∙ ap (λ c. blocks ++ join (codes "\n") c ∷ blocks_of lines)
                (append_assoc current (line ∷ []) (body_of lines)))
  ]
]

not-IsOpener : (line : Text) → opens_rule line ≡ false → ¬ IsOpener line
not-IsOpener line h i = cc ((opens_rule-IsOpener_iff line).1 i)

-- A line behind the opener of a block, which opens no rule itself.
line-Inside :
    (line : Text) (lines body : List Text) (bodies : List (List Text)) (header own_header : Bool)
    → starts_with (codes "[") (trim_start line) ≡ header
    → starts_with (codes "[rules.") (trim_start line) ≡ own_header
    → ¬ IsOpener line
    → Outside lines bodies
    → Inside lines body bodies
    → Inside (line ∷ lines) (if header && not own_header then [] else line ∷ body) bodies
line-Inside line lines body bodies true true h o other_line out in_block =
    own other_line ((starts_with-IsOwnHeader_iff line).0 o) in_block
line-Inside line lines body bodies true false h o other_line out in_block =
    foreign other_line ((starts_with-IsHeader_iff line).0 h)
      (λ i. cc ((starts_with-IsOwnHeader_iff line).1 i)) out
line-Inside line lines body bodies false own_header h o other_line out in_block =
    plain (λ i. cc ((starts_with-IsHeader_iff line).1 i)) other_line in_block

mutual
  bodies_of-Outside : (lines : List Text) → Outside lines (bodies_of lines)
  bodies_of-Outside [] = none_left
  bodies_of-Outside (line ∷ lines) = elim (Bool-cases (opens_rule line)) [
    | inl e ↦ rw e (opener ((opens_rule-IsOpener_iff line).0 e) (body_of-Inside lines))
    | inr e ↦ rw e (not_open (not-IsOpener line e) (bodies_of-Outside lines))
  ]

  body_of-Inside : (lines : List Text) → Inside lines (body_of lines) (bodies_of lines)
  body_of-Inside [] = unclosed
  body_of-Inside (line ∷ lines) = elim (Bool-cases (opens_rule line)) [
    | inl e ↦ rw e (next ((opens_rule-IsOpener_iff line).0 e) (body_of-Inside lines))
    | inr e ↦ rw e (
        line-Inside line lines (body_of lines) (bodies_of lines) _ _ refl refl (not-IsOpener line e)
          (bodies_of-Outside lines) (body_of-Inside lines))
  ]

-- The block parser returns one block for each line that starts, behind white space, with
-- `[[rules]]`: in order, each the lines behind its opener up to the next opener or up to a header
-- that does not start with `[rules.`, joined by line feeds.
pub split_gitleaks_rule_blocks-Outside :
    (toml : Text)
    → (bodies : List (List Text)) × Outside (split_lines toml) bodies
      × (split_gitleaks_rule_blocks toml ≡ map (join (codes "\n")) bodies)
unfolding split_gitleaks_rule_blocks
split_gitleaks_rule_blocks-Outside toml = (
  bodies_of (split_lines toml),
  bodies_of-Outside (split_lines toml),
  split_from-remaining (split_lines toml) [] none,
)
