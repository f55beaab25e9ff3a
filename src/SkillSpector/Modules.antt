-- ===== src/SkillSpector/Modules.antt =====
-- No analyzer module is skipped silently.
use socket_scan_patterns.Divergence.Declared.{IsDeclared, is_declared_divergence-IsDeclared}
use socket_scan_patterns.Divergence.{is_declared_divergence}
use socket_scan_patterns.Emit.{DerivedRowSet}
use socket_scan_patterns.Failure.{ok, bind-eq-ok, ok_injective, passed, zero_patterns}
use socket_scan_patterns.Gitleaks.Rows.{check_rows_lem}
use socket_scan_patterns.Gitleaks.{check_rows}
use socket_scan_patterns.Json.{Json}
use socket_scan_patterns.Prelude.{
  ℕ, suc, ◌≤◌, ◌<◌, Bool, List, [], ◌∷◌, ◌++◌, Option, ◌≡◌, ◌⊎◌, refl, sym, ap, ◌∙◌, arith, length,
  All, inl, inr, subst,
}
use socket_scan_patterns.Schema.{PatternRule}
use socket_scan_patterns.SkillSpector.Language.{SkillSpectorPattern}
use socket_scan_patterns.SkillSpector.Fields.{
  parse_skill_spector_explanations, parse_skill_spector_patterns,
}
use socket_scan_patterns.SkillSpector.{
  module_rows, check_module, rows_of_module, rows_of_modules, module_files,
  derive_skill_spector_rules, skillspector_analyzers_rel_dir, skillspector_defaults_module,
  skillspector_min_expected_rules,
}
use socket_scan_patterns.Text.{Text, codes}
use socket_scan_patterns.Upstream.{Host, UpstreamSlice, read_slice_file, slice_file_path}

module _ (to_lower_case : Text → Text) (compiles : Text → Text → Bool) (slice : UpstreamSlice)
    (host : Host) (divergences : Option Json) where
  -- A module that was parsed: it gives rows, or its skip is declared.
  pub record IsCovered (explanations : List (Text × Text)) (file_name : Text) : Type 0 where
    pub rows : List PatternRule
    pub made :
        rows_of_module to_lower_case compiles slice host divergences explanations file_name
        ≡ ok rows
    pub covered : (0 < length rows) ⊎ IsDeclared divergences (codes "skillspector") file_name

  length-module_rows :
      (entries : List SkillSpectorPattern) (seen : List (Text × ℕ))
      (source_file category flags : Text) (explanations : List (Text × Text))
      → length (
          module_rows to_lower_case compiles slice source_file category flags explanations seen
            entries)
        ≡ length entries
  unfolding module_rows
  length-module_rows [] seen source_file category flags explanations = refl
  length-module_rows (entry ∷ entries) seen source_file category flags explanations =
      ap (λ (n : ℕ). suc n) (length-module_rows entries _ source_file category flags explanations)

  check_module-ok :
      (file_name source_file : Text) (patterns : List SkillSpectorPattern)
      → check_module to_lower_case compiles slice divergences file_name source_file patterns ≡ ok tt
      → (0 < length patterns) ⊎ IsDeclared divergences (codes "skillspector") file_name
  unfolding check_module
  check_module-ok file_name source_file (p ∷ ps) h = inl (omega arith)
  check_module-ok file_name source_file [] h =
      let (declared, found, made) =
        bind-eq-ok (is_declared_divergence divergences (codes "skillspector") file_name) _ h in
      inr (
        is_declared_divergence-IsDeclared divergences (codes "skillspector") file_name
          (found ∙ ap (λ (b : Bool). ok b) (passed (zero_patterns source_file) declared made)))

  rows_of_module-IsCovered :
      (explanations : List (Text × Text)) (file_name : Text) (rows : List PatternRule)
      → rows_of_module to_lower_case compiles slice host divergences explanations file_name
        ≡ ok rows
      → IsCovered explanations file_name
  unfolding rows_of_module
  rows_of_module-IsCovered explanations file_name rows h =
      let rel_path = skillspector_analyzers_rel_dir ++ (codes "/" ++ file_name) in
      let source_file = slice_file_path host slice rel_path in
      let (source, _, h1) = bind-eq-ok (read_slice_file host slice rel_path) _ h in
      let (patterns, _, h2) = bind-eq-ok (parse_skill_spector_patterns source) _ h1 in
      let (_, checked, h3) =
        bind-eq-ok
          (check_module to_lower_case compiles slice divergences file_name source_file patterns) _
          h2 in
      record {
        rows = rows;
        made = h;
        covered = elim (check_module-ok file_name source_file patterns checked) [
          | inl some_pattern ↦ inl (
              subst (λ (rs : List PatternRule). 0 < length rs) (ok_injective h3)
                (rw (length-module_rows patterns [] _ _ _ _) some_pattern))
          | inr declared ↦ inr declared
        ];
      }

  rows_of_modules-All :
      (explanations : List (Text × Text)) (file_names : List Text) (rows : List PatternRule)
      → rows_of_modules to_lower_case compiles slice host divergences explanations file_names
        ≡ ok rows
      → All (IsCovered explanations) file_names
  unfolding rows_of_modules
  rows_of_modules-All explanations [] rows h = tt
  rows_of_modules-All explanations (file_name ∷ file_names) rows h =
      let (first, one, h1) =
        bind-eq-ok
          (rows_of_module to_lower_case compiles slice host divergences explanations file_name) _
          h in
      let (rest, others, _) =
        bind-eq-ok
          (rows_of_modules to_lower_case compiles slice host divergences explanations file_names) _
          h1 in
      (
        rows_of_module-IsCovered explanations file_name first one,
        rows_of_modules-All explanations file_names rest others,
      )

  enough :
      (rules : List PatternRule) (file generator : Text) {row_set : DerivedRowSet}
      → check_rows compiles slice file generator skillspector_min_expected_rules rules ≡ ok row_set
      → skillspector_min_expected_rules ≤ length row_set.rules
  enough rules file generator h =
      elim (check_rows_lem compiles slice file generator skillspector_min_expected_rules rules
        (omega arith)) [
          | inl (least, made) ↦
              subst (λ (s : DerivedRowSet). skillspector_min_expected_rules ≤ length s.rules)
                (ok_injective (sym made ∙ h)) least
          | inr (few, (e, failed)) ↦ absurd (cc)
        ]

  -- If the SkillSpector generator returns, its table holds at least 380 rows, and every analyzer
  -- module was parsed and gave at least one row, unless the divergence file declares its skip with
  -- a reason.
  pub derive_skill_spector_rules-All :
      (row_set : DerivedRowSet)
      → derive_skill_spector_rules to_lower_case compiles slice host divergences ≡ ok row_set
      → (explanations : List (Text × Text)) × All
          (IsCovered explanations)
          (module_files to_lower_case compiles slice host)
        × (skillspector_min_expected_rules ≤ length row_set.rules)
  unfolding derive_skill_spector_rules
  derive_skill_spector_rules-All row_set h =
      let (defaults, _, h1) =
        bind-eq-ok
          (read_slice_file host slice
            (skillspector_analyzers_rel_dir ++ (codes "/" ++ skillspector_defaults_module)))
          _ h in
      let explanations = parse_skill_spector_explanations defaults in
      let (rules, made, h2) =
        bind-eq-ok
          (rows_of_modules to_lower_case compiles slice host divergences explanations
            (module_files to_lower_case compiles slice host))
          _ h1 in
      (explanations, rows_of_modules-All explanations _ rules made, enough rules _ _ h2)
