-- ===== src/Canonical/Patch.antt =====
-- patch.mts
use socket_scan_patterns.Canonical.{Utf8, joined, split_sections}
use socket_scan_patterns.Json.{Number, whole, max_safe_integer}
use socket_scan_patterns.Prelude.{
  ℕ, suc, Bool, true, false, not, ◌&&◌, ◌||◌, List, [], ◌∷◌, ◌++◌, Option, none, some, ltb, leb,
  if◌then◌else◌, length, map, some_of, get_elem?, then_option,
}
use socket_scan_patterns.Regex.Notation.{◌⨟◌, ◌⊕◌, word}
use socket_scan_patterns.Regex.{Rx, line_start, test}
use socket_scan_patterns.Text.{Text, codes, includes, starts_with}

abbrev is_safe_count : Number → Bool
is_safe_count (whole n) = leb n max_safe_integer
is_safe_count _ = false

abbrev number_above : Number → Number → Bool
number_above (whole m) (whole n) = ltb m n
number_above _ _ = false

-- the test of one index, behind the one before it
abbrev is_next : Option Number → Number → Bool
is_next none index = is_safe_count index
is_next (some previous) index = is_safe_count index && number_above previous index

abbrev every_next : Option Number → List Number → Bool
every_next previous [] = true
every_next previous (index ∷ indexes) = is_next previous index && every_next (some index) indexes

-- `canonicalHunksAreValid`, on an array of numbers
unfoldable pub canonical_hunks_are_valid : List Number → Bool
canonical_hunks_are_valid indexes =
    ltb 0 (length indexes) && leb (length indexes) 128 && every_next none indexes

-- /^(?:Binary files |GIT binary patch|copy |deleted file mode|…)/mu
abbrev other_change : Rx
other_change =
    line_start
    ⨟ (word (codes "Binary files ")
        ⊕ word (codes "GIT binary patch")
        ⊕ word (codes "copy ")
        ⊕ word (codes "deleted file mode")
        ⊕ word (codes "new file mode")
        ⊕ word (codes "new mode")
        ⊕ word (codes "old mode")
        ⊕ word (codes "rename "))

abbrev pub keys_from : ℕ → List Text → List Number
keys_from n [] = []
keys_from n (t ∷ ts) = whole n ∷ keys_from (suc n) ts

-- `selected ?? [...sections.keys()]`
abbrev pub selection : Option (List Number) → List Text → List Number
selection none sections = keys_from 0 sections
selection (some indexes) sections = indexes

-- `index >= sections.length`, and `sections[index]`, for an index that is valid
abbrev is_outside : List Text → Number → Bool
is_outside sections (whole n) = leb (length sections) n
is_outside sections _ = false

abbrev or_nothing : Option Text → Text
or_nothing none = []
or_nothing (some t) = t

abbrev pub section_at : List Text → Number → Text
section_at sections (whole n) = or_nothing (get_elem? sections n)
section_at sections _ = []

-- the tests of `selectCanonicalPatch` on the header and the sections
unfoldable pub select_sections : Text → Option (List Number) → Text → List Text → Option Text
select_sections source selected header [] = none
select_sections source selected header (first ∷ rest) =
    let sections = first ∷ rest in
    let indexes = selection selected sections in
    let names = codes "--- a/" ++ (source ++ (codes "\n+++ b/" ++ (source ++ codes "\n"))) in
    if not (includes names header)
      || not (canonical_hunks_are_valid indexes)
      || some_of (is_outside sections) indexes
    then none
    else some (header ++ joined (map (section_at sections) indexes))

abbrev pub select_split : Text → Option (List Number) → List Text → Option Text
select_split source selected [] = none
select_split source selected (header ∷ sections) = select_sections source selected header sections

-- `selectCanonicalPatch`, before the text is made bytes
unfoldable pub select_canonical_text : Text → Text → Option (List Number) → Option Text
select_canonical_text text source selected =
    let opening = codes "diff --git a/" ++ (source ++ (codes " b/" ++ (source ++ codes "\n"))) in
    if not (starts_with opening text)
      || includes (codes "\ndiff --git ") text
      || test other_change text
    then none
    else select_split source selected (split_sections text)

-- `selectCanonicalPatch`
unfoldable pub select_canonical_patch : Utf8 → Text → Text → Option (List Number) → Option (List ℕ)
select_canonical_patch utf8 text source selected =
    then_option (select_canonical_text text source selected)
      (λ selected_text. some (utf8.from_text selected_text))
