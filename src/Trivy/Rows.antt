-- ===== src/Trivy/Rows.antt =====
-- What holds of every row that is derived from Trivy.
use socket_scan_patterns.Dialect.{is_js}
use socket_scan_patterns.Failure.{Failure, ok, err}
use socket_scan_patterns.Gitleaks.Rows.{
  call_compiles, call_compiles-of, check_rows_lem, compiled_label,
}
use socket_scan_patterns.Gitleaks.{translated_path, source_of}
use socket_scan_patterns.Loader.{compile_rule_regex, regex_call}
use socket_scan_patterns.Prelude.{
  ◌≤◌, ◌<◌, ◌⊎◌, Bool, true, false, List, [], ◌∷◌, ◌++◌, Option, none, some, ◌≡◌, refl, arith,
  length, All, All-append, ◌&&◌, subst, if◌then◌else◌,
}
use socket_scan_patterns.Schema.{PatternRule, PatternDialect, js, re2}
use socket_scan_patterns.Text.{Text, codes}
use socket_scan_patterns.Trivy.Fields.{read_trivy_compiled_pattern, read_trivy_regex_fragments}
use socket_scan_patterns.Trivy.{
  trivy_row, row_of_id, trivy_rows, derive_trivy_rules, split_trivy_rule_bodies,
  trivy_min_expected_rules, trivy_pattern_dialect, flags_of,
}
use socket_scan_patterns.Upstream.{UpstreamSlice}

no_call :
    (b : Bool) (stored : Option Text) (kept pattern flags : Text)
    → stored ≡ none
    → regex_call b stored kept ≡ some (pattern, flags)
    → ⊥
no_call false stored kept pattern flags e h = cc
no_call true none kept pattern flags e h = cc
no_call true (some s) kept pattern flags e h = cc

and_left : (a b : Bool) → is_js (if a && b then js else re2) ≡ true → a ≡ true
and_left true b h = refl
and_left false b h = cc

-- a row whose content pattern is the translation of `raw`, if there is one
row-compiled :
    (compiles : Text → Text → Bool) (raw path_raw : Option Text) (rule : PatternRule)
    (pattern flags : Text)
    → rule.dialect
      ≡ trivy_pattern_dialect (translated_path compiles raw) (translated_path compiles path_raw)
    → rule.regex_source ≡ source_of (translated_path compiles raw)
    → rule.regex_flags ≡ flags_of (translated_path compiles raw)
    → compile_rule_regex rule ≡ some (pattern, flags)
    → compiles pattern flags ≡ true
unfolding compile_rule_regex
row-compiled compiles none path_raw rule pattern flags d s f h =
    absurd (no_call _ rule.regex_source _ pattern flags s h)
row-compiled compiles (some []) path_raw rule pattern flags d s f h =
    absurd (no_call _ rule.regex_source _ pattern flags s h)
row-compiled compiles (some (c ∷ cs)) path_raw rule pattern flags d s f h =
    compiled_label compiles (c ∷ cs) rule pattern flags
      (λ e. and_left _ _ (subst (λ (l : PatternDialect). is_js l ≡ true) d e)) s f h

module _ (to_upper_case : Text → Text) (compiles : Text → Text → Bool) (slice : UpstreamSlice)
    (file source : Text) where
  -- A well-formed Trivy row.
  pub record IsTrivyRow (rule : PatternRule) : Type 0 where
    pub id : rule.id ≡ codes "trivy:" ++ rule.provenance.rule_id
    pub license : rule.provenance.license ≡ slice.license
    pub upstream : rule.provenance.source ≡ slice.source
    pub source_file : rule.provenance.source_file ≡ file
    pub compiled : call_compiles compiles (compile_rule_regex rule) ≡ true

  trivy_row-IsTrivyRow :
      (body id : Text) → IsTrivyRow (trivy_row to_upper_case compiles slice file source body id)
  unfolding trivy_row
  trivy_row-IsTrivyRow body id =
      let fragments = read_trivy_regex_fragments source in
      record {
        id = refl;
        license = refl;
        upstream = refl;
        source_file = refl;
        compiled = call_compiles-of compiles _ (λ pattern flags h.
            row-compiled compiles (read_trivy_compiled_pattern body (codes "Regex") fragments)
              (read_trivy_compiled_pattern body (codes "Path") fragments)
              (trivy_row to_upper_case compiles slice file source body id) pattern flags refl refl
              refl h);
      }

  row_of_id-All :
      (body : Text) (id : Option Text)
      → All IsTrivyRow (row_of_id to_upper_case compiles slice file source body id)
  unfolding row_of_id
  row_of_id-All body none = tt
  row_of_id-All body (some []) = tt
  row_of_id-All body (some (c ∷ cs)) = (trivy_row-IsTrivyRow body (c ∷ cs), tt)

  -- Every row derived from Trivy names its upstream, license, file and rule, and its content
  -- pattern compiles if the row is labelled js and has one.
  pub trivy_rows-All :
      (bodies : List Text)
      → All IsTrivyRow (trivy_rows to_upper_case compiles slice file source bodies)
  unfolding trivy_rows
  trivy_rows-All [] = tt
  trivy_rows-All (body ∷ bodies) =
      All-append IsTrivyRow (row_of_id to_upper_case compiles slice file source body _) _
        (row_of_id-All body _) (trivy_rows-All bodies)

  -- The Trivy generator returns all the rows of the source with the one pinned source name when
  -- they are at least 90, and fails when they are fewer.
  pub derive_trivy_rules_lem :
      let rules =
        trivy_rows to_upper_case compiles slice file source (split_trivy_rule_bodies source) in
      ((trivy_min_expected_rules ≤ length rules)
        × (derive_trivy_rules to_upper_case compiles slice file source
            ≡ ok (record { rules = rules; sources = slice.source ∷ [] })))
      ⊎ ((length rules < trivy_min_expected_rules)
          × ((e : Failure) × (derive_trivy_rules to_upper_case compiles slice file source ≡ err e)))
  unfolding derive_trivy_rules
  derive_trivy_rules_lem =
      check_rows_lem compiles slice file _ trivy_min_expected_rules _ (omega arith)
