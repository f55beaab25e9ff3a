-- ===== src/Canonical.antt =====
-- .git-hooks/_shared/canonical/patch.mts and replacements.mts: selecting the hunks of a signed patch,
-- and replacing what they remove.
pub mod Patch
pub mod Hunk
pub mod Replace
pub mod Sections
pub mod Located
pub mod Applied
use socket_scan_patterns.Prelude.{
  ℕ, Bool, true, false, not, ◌&&◌, List, [], ◌∷◌, ◌++◌, Option, none, some, ◌==◌, if◌then◌else◌,
  ◌||◌, ◌≡◌, refl,
}
use socket_scan_patterns.Regex.Notation.{is_line_break}
use socket_scan_patterns.Text.{Text, codes, includes, starts_with, text_eq}

-- The platform: `Buffer.from(bytes).toString('utf8')` and `Buffer.from(text)`.
pub record Utf8 : Type 0 where
  pub to_text : List ℕ → Text
  pub from_text : Text → List ℕ

-- the texts one after the other
abbrev pub joined : List Text → Text
joined [] = []
joined (t ∷ ts) = t ++ joined ts

-- a code unit before the first of some texts
abbrev pub onto_first : ℕ → List Text → List Text
onto_first c [] = (c ∷ []) ∷ []
onto_first c (t ∷ ts) = (c ∷ t) ∷ ts

-- the texts between the places where a line begins with `@@ `; whether a line begins here
unfoldable pub sections_from : Bool → Text → List Text
sections_from line_begins [] = [] ∷ []
sections_from line_begins (c ∷ cs) =
    let here = onto_first c (sections_from (is_line_break c) cs) in
    if line_begins && starts_with (codes "@@ ") (c ∷ cs) then [] ∷ here else here

-- `text.split(/(?=^@@ )/mu)`, which does not split before the first code unit
unfoldable pub split_sections : Text → List Text
split_sections text = sections_from false text

-- `.match(/[^\n]*\n|[^\n]+$/gu) ?? []`: the lines with their ends
unfoldable pub lines_with_ends : Text → List Text
lines_with_ends [] = []
lines_with_ends (c ∷ cs) =
    let rest = lines_with_ends cs in if c == b'\n' then (c ∷ []) ∷ rest else onto_first c rest

-- `utf8Text`
unfoldable pub utf8_text : Utf8 → List ℕ → Option Text
utf8_text utf8 bytes =
    let text = utf8.to_text bytes in
    if not (includes (0 ∷ []) text) && text_eq (utf8.from_text text) bytes then some text else none

-- what comes behind a guard
pub behind_guard {ℓ} :
    {A : Type ℓ} (refused : Bool) (o : Option A) {a : A}
    → (if refused then none else o) ≡ some a
    → (refused ≡ false) × (o ≡ some a)
behind_guard true o h = cc
behind_guard false o h = (refl, h)

pub or_false : (a b : Bool) → (a || b) ≡ false → (a ≡ false) × (b ≡ false)
or_false true b h = cc
or_false false b h = (refl, h)
