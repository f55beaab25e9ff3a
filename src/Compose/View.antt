-- ===== src/Compose/View.antt =====
-- The manifests table as a view of the secrets table.
use mathlib.Core.List.Perm
use mathlib.Core.List.{Mem}
use socket_scan_patterns.Compose.{is_path, truthy, is_manifest_scoped_rule, manifest_row_set}
use socket_scan_patterns.Emit.Order.{IsCollation, sort_pattern_rules-worst_first}
use socket_scan_patterns.Emit.{DerivedRowSet, build_pattern_table}
use socket_scan_patterns.Prelude.{
  true, Option, none, some, List, [], ◌∷◌, ◌≡◌, ◌≢◌, ◌↔◌, refl, sym, some_injective, and_iff,
  Ordering, keep→Mem, Mem→keep,
}
use socket_scan_patterns.Schema.{
  PatternRule, PatternKind, audit, capability, path, regex, manifests, secrets,
}
use socket_scan_patterns.Text.{Text}

-- A rule about paths, with a path pattern that is not empty.
pub record IsScoped (rule : PatternRule) : Type 0 where
  pub kind : rule.kind ≡ path
  pub pattern : Text
  pub has_pattern : rule.path_regex_source ≡ some pattern
  pub not_empty : pattern ≢ []

is_path_iff : (kind : PatternKind) → (is_path kind ≡ true) ↔ (kind ≡ path)
is_path_iff path = (λ h. refl, λ e. refl)
is_path_iff audit = (λ h. cc, λ e. cc)
is_path_iff capability = (λ h. cc, λ e. cc)
is_path_iff regex = (λ h. cc, λ e. cc)

truthy_iff :
    (value : Option Text) → (truthy value ≡ true) ↔ ((t : Text) × (value ≡ some t) × (t ≢ []))
truthy_iff none = (λ h. cc, λ (t, e, n). cc e)
truthy_iff (some []) = (λ h. cc, λ (t, e, n). absurd (n (sym (some_injective e))))
truthy_iff (some (c ∷ cs)) = (λ h. (c ∷ cs, refl, λ e. cc e), λ (t, e, n). refl)

is_manifest_scoped_rule-IsScoped_iff :
    (rule : PatternRule) → (is_manifest_scoped_rule rule ≡ true) ↔ IsScoped rule
is_manifest_scoped_rule-IsScoped_iff rule = (
  λ h.
      let (kind, given) = (and_iff _ _).0 h in
      let (pattern, has_pattern, not_empty) = (truthy_iff rule.path_regex_source).0 given in
      record {
        kind = (is_path_iff rule.kind).0 kind;
        pattern = pattern;
        has_pattern = has_pattern;
        not_empty = not_empty;
      },
  λ s. (and_iff _ _).1 (
    (is_path_iff rule.kind).1 s.kind,
    (truthy_iff rule.path_regex_source).1 (s.pattern, s.has_pattern, s.not_empty),
  ),
)

module _ (locale_compare : Text → Text → Ordering) (c : IsCollation locale_compare) where
  -- For a collation, a rule is in the manifests table exactly if it is in the secrets table, its
  -- kind is path and its path pattern is not empty.
  pub manifests-secrets_iff :
      (secrets_row_set : DerivedRowSet) (rule : PatternRule)
      → Mem rule
          (build_pattern_table locale_compare manifests (manifest_row_set secrets_row_set)).rules
        ↔ (Mem rule (build_pattern_table locale_compare secrets secrets_row_set).rules
            × IsScoped rule)
  unfolding build_pattern_table
  manifests-secrets_iff secrets_row_set rule =
      let sorted =
        λ (rules : List PatternRule). (sort_pattern_rules-worst_first locale_compare c rules).1 in
      (
        λ m.
            let (there, scoped) =
              keep→Mem is_manifest_scoped_rule rule secrets_row_set.rules
                ((Perm.mem_iff (sorted (manifest_row_set secrets_row_set).rules)).0 m) in
            (
              (Perm.mem_iff (sorted secrets_row_set.rules)).1 there,
              (is_manifest_scoped_rule-IsScoped_iff rule).0 scoped,
            ),
        λ (there, scoped). (Perm.mem_iff (sorted (manifest_row_set secrets_row_set).rules)).1 (
            Mem→keep is_manifest_scoped_rule rule secrets_row_set.rules
              ((Perm.mem_iff (sorted secrets_row_set.rules)).0 there)
              ((is_manifest_scoped_rule-IsScoped_iff rule).1 scoped)),
      )
