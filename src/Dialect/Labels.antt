-- ===== src/Dialect/Labels.antt =====
-- What the two labels of a translated pattern promise.
use socket_scan_patterns.Prelude.{
  ℕ, ◌+◌, Bool, true, false, List, [], ◌∷◌, ◌++◌, ◌≡◌, arith, length, keep, All, ◌⊎◌, inl, inr,
}
use socket_scan_patterns.Dialect.{
  TranslatedRegex, convert_named_group_syntax, strip_leading_flags, any_inline_flags, take_letters,
  has_flag, label_translation, translate_regex_for_js, DialectTally, tally_from, tally_dialects,
  is_js, untranslated,
}
use socket_scan_patterns.Dialect.Scan.{
  groups_text, groups_letters, strip_leading_flags-IsStripped, is_js_letter, take_letters-flags,
  take_letters-translatable,
}
use socket_scan_patterns.Schema.{js, re2}
use socket_scan_patterns.Text.{Text}

module _ (compiles : Text → Text → Bool) where
  -- A pattern labelled `js`, as a translation of `raw`.
  pub record IsJavaScript (raw : Text) (r : TranslatedRegex) : Type 0 where
    -- the leading groups that were cut off
    pub groups : List Text
    pub splits : convert_named_group_syntax raw ≡ groups_text groups ++ r.source
    pub all_letters : All (λ l. is_js_letter l ≡ true) (groups_letters groups)
    pub flags : (c : ℕ) → has_flag c r.flags ≡ has_flag c (groups_letters groups)
    pub unscoped : any_inline_flags r.source ≡ false
    pub compiled : compiles r.source r.flags ≡ true

  label-js :
      (raw source : Text) (s : Text × Bool)
      → (label_translation compiles raw source s).dialect ≡ js
      → (any_inline_flags source ≡ false)
        × (s.1 ≡ true)
        × (compiles source s.0 ≡ true)
        × (label_translation compiles raw source s
            ≡ record { dialect = js; flags = s.0; source = source })
  unfolding label_translation
  label-js raw source (flags, t) h = ground arith

  -- A pattern labelled js compiles, its source is the converted pattern without a leading run of
  -- flag groups, no flag group is left in it, and its flags are exactly the letters of that run.
  pub translate_regex_for_js-IsJavaScript :
      (raw : Text)
      → (translate_regex_for_js compiles raw).dialect ≡ js
      → IsJavaScript raw (translate_regex_for_js compiles raw)
  unfolding translate_regex_for_js
  translate_regex_for_js-IsJavaScript raw h =
      let converted = convert_named_group_syntax raw in
      let stripped = strip_leading_flags-IsStripped converted in
      let letters = (strip_leading_flags converted).0 in
      let source = (strip_leading_flags converted).1 in
      let (unscoped, kept, compiled, result) =
        label-js raw source (take_letters letters ([], true)) h in
      let (_, all, flags) = take_letters-flags letters ([], true) kept in
      rw result (record {
        groups = stripped.groups;
        splits = stripped.splits;
        all_letters = rw stripped.are_letters at all;
        flags = λ c. rw (← stripped.are_letters) (flags c);
        unscoped = unscoped;
        compiled = compiled;
      })

  label-re2 :
      (raw source : Text) (s : Text × Bool)
      → (label_translation compiles raw source s).dialect ≡ re2
      → (label_translation compiles raw source s ≡ untranslated raw)
        × ((any_inline_flags source ≡ true) ⊎ ((s.1 ≡ false) ⊎ (compiles source s.0 ≡ false)))
  unfolding label_translation
  label-re2 raw source (flags, t) h = ground arith

  -- Why a pattern could not be translated: what is left of it still sets flags, or a leading letter
  -- is none of `i`, `m`, `s`, or the engine refuses it.
  abbrev pub IsInexpressible : Text → Type 0
  IsInexpressible raw =
      let (letters, source) = strip_leading_flags (convert_named_group_syntax raw) in
      (any_inline_flags source ≡ true)
      ⊎ ((¬ All (λ l. is_js_letter l ≡ true) letters)
          ⊎ (compiles source (take_letters letters ([], true)).0 ≡ false))

  -- A pattern labelled re2 is the upstream pattern untouched and with no flags, and it still sets
  -- flags behind its leading run, or has a leading letter other than i, m and s, or is refused by
  -- the engine.
  pub translate_regex_for_js-untranslated :
      (raw : Text)
      → (translate_regex_for_js compiles raw).dialect ≡ re2
      → (translate_regex_for_js compiles raw ≡ untranslated raw) × IsInexpressible raw
  unfolding translate_regex_for_js
  translate_regex_for_js-untranslated raw h =
      let letters = (strip_leading_flags (convert_named_group_syntax raw)).0 in
      let (result, reason) = label-re2 raw _ (take_letters letters ([], true)) h in
      (
        result,
        elim reason [
          | inl scoped ↦ inl scoped
          | inr (inl letter) ↦
              inr (inl λ all. cc (letter, take_letters-translatable letters ([], true) all))
          | inr (inr refused) ↦ inr (inr refused)
        ],
      )

tally_from-length :
    (rs : List TranslatedRegex) (t : DialectTally)
    → (tally_from rs t).js_count + (tally_from rs t).re2_count
      ≡ length rs + t.js_count + t.re2_count
unfolding tally_from
tally_from-length [] t = omega arith
tally_from-length (r ∷ rs) t = ground (
  arith,
  tally_from-length rs (record t { js_count = t.js_count + 1 }),
  tally_from-length rs (record t { re2_count = t.re2_count + 1 }),
)

tally_from-js :
    (rs : List TranslatedRegex) (t : DialectTally)
    → (tally_from rs t).js_count ≡ t.js_count + length (keep (λ r. is_js r.dialect) rs)
unfolding tally_from
tally_from-js [] t = omega arith
tally_from-js (r ∷ rs) t = ground (
  arith,
  tally_from-js rs (record t { js_count = t.js_count + 1 }),
  tally_from-js rs (record t { re2_count = t.re2_count + 1 }),
)

-- The tally counts the translations labelled js, and every other as re2.
pub tally_dialects_lem :
    (rs : List TranslatedRegex)
    → ((tally_dialects rs).js_count ≡ length (keep (λ r. is_js r.dialect) rs))
      × ((tally_dialects rs).js_count + (tally_dialects rs).re2_count ≡ length rs)
unfolding tally_dialects
tally_dialects_lem rs =
    let start : DialectTally = record { js_count = 0; re2_count = 0 } in
    (omega (arith, tally_from-js rs start), omega (arith, tally_from-length rs start))
