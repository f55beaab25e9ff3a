-- ===== src/Gitleaks/Rows.antt =====
-- What holds of every row that is derived from gitleaks.
use socket_scan_patterns.Dialect.Labels.{translate_regex_for_js-IsJavaScript}
use socket_scan_patterns.Dialect.{translate_regex_for_js, is_js}
use socket_scan_patterns.Emit.{assert_rows_present}
use socket_scan_patterns.Failure.{Failure, ok, err, zero_rows, too_few_rules}
use socket_scan_patterns.Gitleaks.Fields.{read_gitleaks_scalar}
use socket_scan_patterns.Gitleaks.{
  translated_path, path_is_js, source_of, gitleaks_row, row_of_fields, gitleaks_rows, check_rows,
}
use socket_scan_patterns.Loader.{compile_rule_regex, regex_call}
use socket_scan_patterns.Prelude.{
  ◌&&◌, sym, some_injective, if◌then◌else◌, ℕ, ◌≤◌, ◌<◌, ◌⊎◌, ltb, ltb→lt, Bool, true, false, List,
  [], ◌∷◌, ◌++◌, Option, none, some, ◌≡◌, refl, arith, length, Bool-cases, inl, inr, All,
  All-append,
}
use socket_scan_patterns.Schema.{PatternRule, PatternDialect, js, re2, high}
use socket_scan_patterns.Text.{Text, codes}
use socket_scan_patterns.Upstream.{UpstreamSlice}

call_some :
    (b : Bool) (stored : Option Text) (source kept pattern flags : Text)
    → stored ≡ some source
    → regex_call b stored kept ≡ some (pattern, flags)
    → (b ≡ true) × (pattern ≡ source) × (flags ≡ kept)
call_some false stored source kept pattern flags e h = cc
call_some true none source kept pattern flags e h = cc
call_some true (some []) source kept pattern flags e h = cc
call_some true (some (c ∷ cs)) source kept pattern flags e h = (refl, ground arith, ground arith)

compile_rule_regex-some :
    (rule : PatternRule) (source pattern flags : Text)
    → rule.regex_source ≡ some source
    → compile_rule_regex rule ≡ some (pattern, flags)
    → (is_js rule.dialect ≡ true) × (pattern ≡ source) × (flags ≡ rule.regex_flags)
unfolding compile_rule_regex
compile_rule_regex-some rule source pattern flags e h =
    call_some (is_js rule.dialect) rule.regex_source source rule.regex_flags pattern flags e h

is_js-eq : (d : PatternDialect) → is_js d ≡ true → d ≡ js
is_js-eq js h = refl
is_js-eq re2 h = cc

-- whether the call of the engine, if there is one, returns
abbrev pub call_compiles : (Text → Text → Bool) → Option (Text × Text) → Bool
call_compiles compiles none = true
call_compiles compiles (some (pattern, flags)) = compiles pattern flags

pub call_compiles-of :
    (compiles : Text → Text → Bool) (call : Option (Text × Text))
    → ((pattern flags : Text) → call ≡ some (pattern, flags) → compiles pattern flags ≡ true)
    → call_compiles compiles call ≡ true
call_compiles-of compiles none h = refl
call_compiles-of compiles (some (pattern, flags)) h = h pattern flags refl

-- a translation that is labelled `js` compiles, and is what a consumer compiles
pub compiled_label :
    (compiles : Text → Text → Bool) (raw : Text) (rule : PatternRule) (pattern flags : Text)
    → (is_js rule.dialect ≡ true → is_js (translate_regex_for_js compiles raw).dialect ≡ true)
    → rule.regex_source ≡ some (translate_regex_for_js compiles raw).source
    → rule.regex_flags ≡ (translate_regex_for_js compiles raw).flags
    → compile_rule_regex rule ≡ some (pattern, flags)
    → compiles pattern flags ≡ true
compiled_label compiles raw rule pattern flags js_label source same_flags h =
    let (labelled, pattern_is, flags_are) = compile_rule_regex-some rule _ pattern flags source h in
    let row = translate_regex_for_js-IsJavaScript compiles raw (is_js-eq _ (js_label labelled)) in
    rw (pattern_is, flags_are, same_flags) row.compiled

module _ (compiles : Text → Text → Bool) (slice : UpstreamSlice) (file : Text) where
  -- A path pattern, of the pattern from which it was translated.
  pub record IsPathOf (raw pattern : Text) : Type 0 where
    pub translated : (translate_regex_for_js compiles raw).source ≡ pattern
    pub is_javascript : (translate_regex_for_js compiles raw).dialect ≡ js
    pub path_compiles : compiles pattern (translate_regex_for_js compiles raw).flags ≡ true

  path_pattern-IsPathOf :
      (raw_path : Option Text)
      → path_is_js (translated_path compiles raw_path) ≡ true
      → (pattern : Text) → source_of (translated_path compiles raw_path) ≡ some pattern
      → (raw : Text) × IsPathOf raw pattern
  path_pattern-IsPathOf none label pattern h = cc
  path_pattern-IsPathOf (some []) label pattern h = cc
  path_pattern-IsPathOf (some (c ∷ cs)) label pattern h =
      let is = is_js-eq (translate_regex_for_js compiles (c ∷ cs)).dialect label in
      let same = some_injective h in
      (
        c ∷ cs,
        record {
          translated = same;
          is_javascript = is;
          path_compiles =
              rw (sym same) (translate_regex_for_js-IsJavaScript compiles (c ∷ cs) is).compiled;
        },
      )

  js_label : (a b : Bool) → (if a && b then js else re2) ≡ js → b ≡ true
  js_label true true h = refl
  js_label true false h = cc
  js_label false b h = cc

  -- A well-formed gitleaks row.
  pub record IsGitleaksRow (rule : PatternRule) : Type 0 where
    pub id : rule.id ≡ codes "gitleaks:" ++ rule.provenance.rule_id
    pub license : rule.provenance.license ≡ slice.license
    pub source : rule.provenance.source ≡ slice.source
    pub source_file : rule.provenance.source_file ≡ file
    pub severity : rule.severity ≡ high
    pub has_pattern : (pattern : Text) × (rule.regex_source ≡ some pattern)
    -- what a consumer compiles of the content pattern compiles
    pub compiled : call_compiles compiles (compile_rule_regex rule) ≡ true
    -- under the label `js`, a path pattern compiles with the flags of its own translation
    pub path_compiled :
        rule.dialect ≡ js
        → (pattern : Text) → rule.path_regex_source ≡ some pattern
        → (raw : Text) × IsPathOf raw pattern

  gitleaks_row-IsGitleaksRow :
      (block id regex_source : Text)
      → IsGitleaksRow (gitleaks_row compiles slice file block id regex_source)
  unfolding gitleaks_row
  gitleaks_row-IsGitleaksRow block id regex_source = record {
    id = refl;
    license = refl;
    source = refl;
    source_file = refl;
    severity = refl;
    has_pattern = ((translate_regex_for_js compiles regex_source).source, refl);
    compiled = call_compiles-of compiles _ (λ pattern flags h.
        compiled_label compiles regex_source
          (gitleaks_row compiles slice file block id regex_source) pattern flags (λ e. ground arith)
          refl refl h);
    path_compiled = λ label pattern h.
        path_pattern-IsPathOf (read_gitleaks_scalar block (codes "path")) (js_label _ _ label)
          pattern h;
  }

  row_of_fields-All :
      (block : Text) (id regex_source : Option Text)
      → All IsGitleaksRow (row_of_fields compiles slice file block id regex_source)
  unfolding row_of_fields
  row_of_fields-All block (some (i ∷ id)) (some (r ∷ rs)) =
      (gitleaks_row-IsGitleaksRow block (i ∷ id) (r ∷ rs), tt)
  row_of_fields-All block (some (i ∷ id)) (some []) = tt
  row_of_fields-All block (some (i ∷ id)) none = tt
  row_of_fields-All block (some []) regex_source = tt
  row_of_fields-All block none regex_source = tt

  -- Every row derived from gitleaks names its upstream, license, file and rule, and has a content
  -- pattern. Where it is labelled js, the content pattern compiles with the flags of the row, and
  -- a path pattern, if it has one, with the flags of its own translation.
  pub gitleaks_rows-All :
      (blocks : List Text) → All IsGitleaksRow (gitleaks_rows compiles slice file blocks)
  unfolding gitleaks_rows
  gitleaks_rows-All [] = tt
  gitleaks_rows-All (block ∷ blocks) =
      All-append IsGitleaksRow (row_of_fields compiles slice file block _ _) _
        (row_of_fields-All block _ _) (gitleaks_rows-All blocks)

  pub check_rows_lem :
      (generator : Text) (least : ℕ) (rules : List PatternRule)
      → 0 < least
      → ((least ≤ length rules)
          × (check_rows compiles slice file generator least rules
              ≡ ok (record { rules = rules; sources = slice.source ∷ [] })))
        ⊎ ((length rules < least)
            × ((e : Failure) × (check_rows compiles slice file generator least rules ≡ err e)))
  unfolding check_rows assert_rows_present
  check_rows_lem generator least [] pos = inr (pos, (zero_rows generator file, refl))
  check_rows_lem generator least (r ∷ rs) pos = elim (Bool-cases (ltb (length (r ∷ rs)) least)) [
    | inl few ↦ inr (ltb→lt _ _ few, (too_few_rules file (length (r ∷ rs)) least, rw few refl))
    | inr enough ↦ inl (ground arith, rw enough refl)
  ]
