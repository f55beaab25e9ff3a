-- ===== src/Canonical/Sections.antt =====
-- A patch is its header and its sections.
use socket_scan_patterns.Canonical.Patch.{
  keys_from, section_at, select_sections, select_split, select_canonical_text,
  select_canonical_patch,
}
use socket_scan_patterns.Canonical.{
  Utf8, joined, onto_first, sections_from, split_sections, behind_guard,
}
use socket_scan_patterns.Json.{whole}
use socket_scan_patterns.Prelude.{
  ℕ, suc, Bool, false, ◌&&◌, List, [], ◌∷◌, ◌++◌, none, some, ◌≡◌, refl, sym, ap, ap₂, ◌∙◌, arith,
  length, map, get_elem?, Bool-cases, inl, inr, append_assoc, some_injective, length-append, subst,
  then_option-some,
}
use socket_scan_patterns.Regex.Notation.{is_line_break}
use socket_scan_patterns.Text.{Text, codes, starts_with}

joined-onto_first : (c : ℕ) (ts : List Text) → joined (onto_first c ts) ≡ c ∷ joined ts
joined-onto_first c [] = refl
joined-onto_first c (t ∷ ts) = refl

joined-sections_from : (t : Text) (begins : Bool) → joined (sections_from begins t) ≡ t
unfolding sections_from
joined-sections_from [] begins = refl
joined-sections_from (c ∷ cs) begins =
    let glued =
      joined-onto_first c (sections_from (is_line_break c) cs)
      ∙ ap (λ (t : Text). c ∷ t) (joined-sections_from cs (is_line_break c)) in
    elim (Bool-cases (begins && starts_with (codes "@@ ") (c ∷ cs))) [
      | inl e ↦ rw e glued
      | inr e ↦ rw e glued
    ]

get_elem?-append :
    (pre : List Text) (t : Text) (ts : List Text) → get_elem? (pre ++ t ∷ ts) (length pre) ≡ some t
get_elem?-append [] t ts = refl
get_elem?-append (p ∷ pre) t ts = get_elem?-append pre t ts

-- the sections under the numbers from a place on are those behind it
map-keys_from :
    (pre ts : List Text) (n : ℕ)
    → n ≡ length pre
    → map (section_at (pre ++ ts)) (keys_from n ts) ≡ ts
map-keys_from pre [] n h = refl
map-keys_from pre (t ∷ ts) n h =
    let here : section_at (pre ++ t ∷ ts) (whole n) ≡ t = rw (h, get_elem?-append pre t ts) refl in
    let longer =
      map-keys_from (pre ++ t ∷ []) ts (suc n) (omega (arith, length-append pre (t ∷ []))) in
    ap₂ (λ (x : Text) (xs : List Text). x ∷ xs) here
      (subst (λ (all : List Text). map (section_at all) (keys_from (suc n) ts) ≡ ts)
        (append_assoc pre (t ∷ []) ts) longer)

select_sections-all :
    (source header : Text) (sections : List Text) {out : Text}
    → select_sections source none header sections ≡ some out
    → out ≡ header ++ joined sections
unfolding select_sections
select_sections-all source header [] h = cc
select_sections-all source header (first ∷ rest) h =
    let (_, made) =
      behind_guard _
        (some (header ++ joined (map (section_at (first ∷ rest)) (keys_from 0 (first ∷ rest)))))
        h in
    sym (some_injective made)
    ∙ ap (λ (ts : List Text). header ++ joined ts) (map-keys_from [] (first ∷ rest) 0 refl)

select_split-all :
    (source : Text) (sections : List Text) {out : Text}
    → select_split source none sections ≡ some out
    → out ≡ joined sections
select_split-all source [] h = cc
select_split-all source (header ∷ sections) h = select_sections-all source header sections h

-- Selecting all hunks of a patch gives the bytes of the whole patch.
pub select_canonical_patch-all :
    (utf8 : Utf8) (text source : Text) {bytes : List ℕ}
    → select_canonical_patch utf8 text source none ≡ some bytes
    → bytes ≡ utf8.from_text text
unfolding select_canonical_patch select_canonical_text split_sections
select_canonical_patch-all utf8 text source h =
    let (selected, taken, made) = then_option-some (select_canonical_text text source none) _ h in
    let (_, split) = behind_guard _ (select_split source none (split_sections text)) taken in
    sym (some_injective made)
    ∙ ap utf8.from_text
        (select_split-all source (split_sections text) split ∙ joined-sections_from text false)
