-- ===== src/Dialect.antt =====
-- scripts/repo/gen/_shared/regex-dialect.mts: upstream patterns rewritten for JavaScript, or
-- labelled `re2`.
pub mod Scan
pub mod Convert
pub mod Labels
pub mod Merge
use socket_scan_patterns.Prelude.{
  ℕ, zero, suc, ◌+◌, Bool, true, false, not, ◌&&◌, ◌||◌, List, [], ◌∷◌, ◌++◌, Option, none, some,
  ◌==◌, if◌then◌else◌, length, map, is_some,
}
use socket_scan_patterns.Schema.{PatternDialect, js, re2}
use socket_scan_patterns.Text.{Text, is_letter, codes, join}
use socket_scan_patterns.Text.Order.{sort_texts}
use socket_scan_patterns.TextSet.{add_all}

-- `TranslatedRegex`
pub record TranslatedRegex : Type 0 where
  pub dialect : PatternDialect
  pub flags : Text
  pub source : Text

-- `[a-zA-Z]+\)` at the start of a text, after the letters read so far, which may be none: the
-- letters, and what follows the bracket. The letters end where the bracket stands, so the match
-- does not depend on backtracking.
unfoldable pub letters_then_close : Text → Text → Option (Text × Text)
letters_then_close read [] = none
letters_then_close [] (c ∷ cs) =
    let more = letters_then_close (c ∷ []) cs in if is_letter c then more else none
letters_then_close (r ∷ rs) (c ∷ cs) =
    let more = letters_then_close (r ∷ (rs ++ c ∷ [])) cs in
    if is_letter c then more else if c == b')' then some (r ∷ rs, cs) else none

-- `\(\?[a-zA-Z]+\)` at the start of a text: its letters, and what follows it
unfoldable pub flag_group : Text → Option (Text × Text)
unfolding letters_then_close
flag_group [] = none
flag_group (a ∷ []) = none
flag_group (a ∷ b ∷ s) = if a == b'(' && b == b'?' then letters_then_close [] s else none

-- the greedy run of `LEADING_INLINE_FLAGS`: all its letters, and what is left of the source
unfoldable pub leading_run : ℕ → Text → Text × Text
leading_run zero s = ([], s)
leading_run (suc fuel) s = elim (flag_group s) [
  | none ↦ ([], s)
  | some (letters, rest) ↦ let (more, left) = leading_run fuel rest in (letters ++ more, left)
]

-- `LEADING_INLINE_FLAGS.exec(source)`, its letters, and the source with the run cut off
unfoldable pub strip_leading_flags : Text → Text × Text
unfolding leading_run
strip_leading_flags source = leading_run (length source) source

-- `ANY_INLINE_FLAGS.test(source)`
unfoldable pub any_inline_flags : Text → Bool
unfolding flag_group
any_inline_flags [] = false
any_inline_flags (c ∷ cs) = is_some (flag_group (c ∷ cs)) || any_inline_flags cs

-- `inlineFlagToJsFlag`
unfoldable pub inline_flag_to_js_flag : ℕ → Option ℕ
inline_flag_to_js_flag letter =
    if letter == b'i'
    then some b'i'
    else if letter == b'm'
    then some b'm'
    else if letter == b's'
    then some b's'
    else none

-- `convertNamedGroupSyntax`
unfoldable pub convert_named_group_syntax : Text → Text
convert_named_group_syntax (a ∷ b ∷ c ∷ d ∷ s) =
    let after = convert_named_group_syntax s in
    let rest = convert_named_group_syntax (b ∷ c ∷ d ∷ s) in
    if a == b'(' && b == b'?' && c == b'P' && d == b'<' then codes "(?<" ++ after else a ∷ rest
convert_named_group_syntax (a ∷ s) = a ∷ convert_named_group_syntax s
convert_named_group_syntax [] = []

abbrev pub has_flag : ℕ → Text → Bool
has_flag c [] = false
has_flag c (f ∷ fs) = f == c || has_flag c fs

-- one round of the loop over the letters: `flags` and `translatable`
unfoldable pub take_letter : ℕ → Text × Bool → Text × Bool
unfolding inline_flag_to_js_flag
take_letter letter (flags, translatable) = elim (inline_flag_to_js_flag letter) [
  | none ↦ (flags, false)
  | some f ↦ (if not (has_flag f flags) then flags ++ f ∷ [] else flags, translatable)
]

unfoldable pub take_letters : Text → Text × Bool → Text × Bool
take_letters [] state = state
take_letters (l ∷ ls) state = take_letters ls (take_letter l state)

abbrev pub untranslated : Text → TranslatedRegex
untranslated raw_source = record { dialect = re2; flags = []; source = raw_source }

-- Whether `new RegExp(source, flags)` returns: the engine's answer.
module _ (compiles : Text → Text → Bool) where
  -- the checks behind the leading run
  unfoldable pub label_translation : Text → Text → Text × Bool → TranslatedRegex
  label_translation raw_source source (flags, translatable) =
      if any_inline_flags source
      then untranslated raw_source
      else if not translatable
      then untranslated raw_source
      else if compiles source flags
      then record { dialect = js; flags = flags; source = source }
      else untranslated raw_source

  -- `translateRegexForJs`
  unfoldable pub translate_regex_for_js : Text → TranslatedRegex
  unfolding label_translation
  translate_regex_for_js raw_source =
      let (letters, source) = strip_leading_flags (convert_named_group_syntax raw_source) in
      label_translation raw_source source (take_letters letters ([], true))

-- `DialectTally`
pub record DialectTally : Type 0 where
  pub js_count : ℕ
  pub re2_count : ℕ

abbrev pub is_js : PatternDialect → Bool
is_js js = true
is_js re2 = false

tally_from : List TranslatedRegex → DialectTally → DialectTally
tally_from [] t = t
tally_from (r ∷ rs) t = tally_from rs (
    if is_js r.dialect
    then record t { js_count = t.js_count + 1 }
    else record t { re2_count = t.re2_count + 1 })

-- `tallyDialects`
unfoldable pub tally_dialects : List TranslatedRegex → DialectTally
unfolding tally_from
tally_dialects translations = tally_from translations (record { js_count = 0; re2_count = 0 })

-- iterating a string of flags: one text for each
abbrev pub characters : Text → List Text
characters = map (λ c. c ∷ [])

-- the nested loops of `mergeRegexFlags`
unfoldable pub seen_flags : List Text → List Text → List Text
seen_flags [] seen = seen
seen_flags (set ∷ sets) seen = seen_flags sets (add_all (characters set) seen)

-- `mergeRegexFlags`
unfoldable pub merge_regex_flags : List Text → Text
unfolding seen_flags
merge_regex_flags flag_sets = join [] (sort_texts (seen_flags flag_sets []))
