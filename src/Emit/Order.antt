-- ===== src/Emit/Order.antt =====
-- The order that `sortPatternRules` gives a table.
use mathlib.Core.List.{Mem, Perm, Pairwise}
use mathlib.Core.List.Pairwise
use mathlib.Core.List.Perm
use socket_scan_patterns.Prelude.{
  ◌≤◌, true, false, List, ◌≡◌, refl, some, arith, Ordering, sym, get_elem?,
}
use socket_scan_patterns.Emit.{severity_rank, compare_rules, sort_pattern_rules}
use socket_scan_patterns.Schema.{
  PatternRule, PatternSeverity, critical, high, info, low, medium, pattern_severity_order,
}
use socket_scan_patterns.Sorting.{not_after}
use socket_scan_patterns.Sorting.Laws.{IsOrder, sort_by-eq_of_perm, sort_by-IsSorted, sort_by-perm}
use socket_scan_patterns.Text.{Text}

abbrev pub flip : Ordering → Ordering
flip Ordering.lt = Ordering.gt
flip Ordering.eq = Ordering.eq
flip Ordering.gt = Ordering.lt

-- What a collation promises: comparing the other way round gives the opposite sign, and "not
-- after" is transitive. Different texts may compare equal.
pub record IsCollation (locale_compare : Text → Text → Ordering) : Type 0 where
  pub opposite : (a b : Text) → locale_compare b a ≡ flip (locale_compare a b)
  pub trans :
      (a b c : Text)
      → not_after locale_compare a b ≡ true
      → not_after locale_compare b c ≡ true
      → not_after locale_compare a c ≡ true

module _ (locale_compare : Text → Text → Ordering) (c : IsCollation locale_compare) where
  rules_total :
      (a b : PatternRule)
      → not_after (compare_rules locale_compare) a b ≡ false
      → not_after (compare_rules locale_compare) b a ≡ true
  unfolding compare_rules
  rules_total a b h = ground (arith, c.opposite a.id b.id)

  rules_trans :
      (x y z : PatternRule)
      → not_after (compare_rules locale_compare) x y ≡ true
      → not_after (compare_rules locale_compare) y z ≡ true
      → not_after (compare_rules locale_compare) x z ≡ true
  unfolding compare_rules
  rules_trans x y z h k = ground (arith, c.trans x.id y.id z.id)

  pub rules-IsOrder : IsOrder (not_after (compare_rules locale_compare))
  rules-IsOrder = record { total = rules_total; trans = rules_trans }

  tied_ids :
      (a b : PatternRule)
      → not_after (compare_rules locale_compare) a b ≡ true
      → not_after (compare_rules locale_compare) b a ≡ true
      → locale_compare a.id b.id ≡ Ordering.eq
  unfolding compare_rules
  tied_ids a b h k = ground (arith, c.opposite a.id b.id)

  -- no two different rules of the list have ids that the collation holds equal
  abbrev pub HasDistinctIds : List PatternRule → Type 0
  HasDistinctIds rules =
      (a b : PatternRule)
      → Mem a rules
      → Mem b rules
      → locale_compare a.id b.id ≡ Ordering.eq
      → a ≡ b

  -- For a collation and rules whose ids it tells apart, two arrangements of the same rules sort to
  -- the same table order.
  pub sort_pattern_rules-eq_of_perm :
      (rules rearranged : List PatternRule)
      → HasDistinctIds rules
      → Perm rules rearranged
      → sort_pattern_rules locale_compare rules ≡ sort_pattern_rules locale_compare rearranged
  unfolding sort_pattern_rules
  sort_pattern_rules-eq_of_perm rules rearranged distinct p =
      sort_by-eq_of_perm (not_after (compare_rules locale_compare)) rules-IsOrder rules rearranged
        (λ a b ma mb h k. distinct a b ma mb (tied_ids a b h k)) p

  rank_le :
      (a b : PatternRule)
      → not_after (compare_rules locale_compare) a b ≡ true
      → severity_rank a.severity ≤ severity_rank b.severity
  unfolding compare_rules
  rank_le a b h = ground arith

  -- For a collation, no rule of the sorted list stands behind one of a lower severity, and sorting
  -- loses and invents no rule.
  pub sort_pattern_rules-worst_first :
      (rules : List PatternRule)
      → Pairwise
          (λ a b. severity_rank a.severity ≤ severity_rank b.severity)
          (sort_pattern_rules locale_compare rules)
        × Perm (sort_pattern_rules locale_compare rules) rules
  unfolding sort_pattern_rules
  sort_pattern_rules-worst_first rules =
      (Pairwise.imp rank_le (sort_by-IsSorted _ rules-IsOrder rules), sort_by-perm _ rules)

  -- For a collation and rules whose ids it tells apart, sorting a sorted list changes nothing.
  pub sort_pattern_rules_idempotent :
      (rules : List PatternRule)
      → HasDistinctIds rules
      → sort_pattern_rules locale_compare (sort_pattern_rules locale_compare rules)
        ≡ sort_pattern_rules locale_compare rules
  sort_pattern_rules_idempotent rules distinct = sym (
      sort_pattern_rules-eq_of_perm rules (sort_pattern_rules locale_compare rules) distinct
        (Perm.symm (sort_pattern_rules-worst_first rules).1))

-- The rank that sorts the tables is the position in the published severity order.
pub severity_rank-pattern_severity_order :
    (s : PatternSeverity) → get_elem? pattern_severity_order (severity_rank s) ≡ some s
severity_rank-pattern_severity_order critical = refl
severity_rank-pattern_severity_order high = refl
severity_rank-pattern_severity_order info = refl
severity_rank-pattern_severity_order low = refl
severity_rank-pattern_severity_order medium = refl
