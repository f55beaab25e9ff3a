-- ===== src/Tests/DialectRuns.antt =====
-- regex-dialect.mts
use socket_scan_patterns.Dialect.Labels.{
  IsJavaScript, IsInexpressible, translate_regex_for_js-IsJavaScript,
  translate_regex_for_js-untranslated,
}
use socket_scan_patterns.Dialect.Scan.{IsStripped, strip_leading_flags-IsStripped}
use socket_scan_patterns.Dialect.{
  TranslatedRegex, translate_regex_for_js, convert_named_group_syntax, strip_leading_flags,
  any_inline_flags, take_letter, take_letters, untranslated, merge_regex_flags,
}
use socket_scan_patterns.Prelude.{List, [], ◌∷◌, ◌≡◌, refl, ap}
use socket_scan_patterns.Schema.{js, re2}
use socket_scan_patterns.Sorting.{sort_by}
use socket_scan_patterns.Tests.Samples.{sample_engine}
use socket_scan_patterns.Text.Order.{text_compare, sort_texts}
use socket_scan_patterns.Text.{Text, codes, includes, join}
use socket_scan_patterns.TextSet.{has, add, add_all}

leading :
    translate_regex_for_js sample_engine (codes "(?i)(?s)a(?P<n>b)")
    ≡ record { dialect = js; flags = codes "is"; source = codes "a(?<n>b)" }
unfolding translate_regex_for_js convert_named_group_syntax strip_leading_flags any_inline_flags
    take_letters take_letter includes
leading = refl

scoped :
    translate_regex_for_js sample_engine (codes "a(?i)b")
    ≡ record { dialect = re2; flags = []; source = codes "a(?i)b" }
unfolding translate_regex_for_js convert_named_group_syntax strip_leading_flags any_inline_flags
    take_letters take_letter includes
scoped = refl

ungreedy :
    translate_regex_for_js sample_engine (codes "(?iU)b")
    ≡ record { dialect = re2; flags = []; source = codes "(?iU)b" }
unfolding translate_regex_for_js convert_named_group_syntax strip_leading_flags any_inline_flags
    take_letters take_letter includes
ungreedy = refl

merged : merge_regex_flags (codes "s" ∷ codes "im" ∷ codes "i" ∷ []) ≡ codes "ims"
unfolding merge_regex_flags sort_texts sort_by add_all add has text_compare join
merged = refl

abbrev flagged : Text
flagged = codes "(?i)(?s)a(?P<n>b)"

translate_regex_for_js-IsJavaScript_example :
    IsJavaScript sample_engine flagged (translate_regex_for_js sample_engine flagged)
translate_regex_for_js-IsJavaScript_example =
    translate_regex_for_js-IsJavaScript sample_engine flagged (ap (λ r. r.dialect) leading)

translate_regex_for_js-untranslated_example :
    (translate_regex_for_js sample_engine (codes "a(?i)b") ≡ untranslated (codes "a(?i)b"))
    × IsInexpressible sample_engine (codes "a(?i)b")
translate_regex_for_js-untranslated_example =
    translate_regex_for_js-untranslated sample_engine (codes "a(?i)b") (ap (λ r. r.dialect) scoped)

strip_leading_flags-IsStripped_example :
    IsStripped flagged (strip_leading_flags flagged).0 (strip_leading_flags flagged).1
strip_leading_flags-IsStripped_example = strip_leading_flags-IsStripped flagged

abbrev translations : List TranslatedRegex
translations = untranslated flagged ∷ record { dialect = js; flags = []; source = codes "x" } ∷ []
