-- ===== src/Dialect/Merge.antt =====
-- Merged flags: sorted, deduplicated, and dependent on nothing but which flags occur.
use mathlib.Core.List.{Mem, Nodup, perm_ext_iff_of_Nodup}
use mathlib.Core.List.{Nodup-nil}
use socket_scan_patterns.Prelude.{Bool, true, false, ◌||◌, List, [], ◌∷◌, ◌≡◌, ◌↔◌, ap, arith}
use socket_scan_patterns.Dialect.{characters, seen_flags, merge_regex_flags}
use socket_scan_patterns.Text.{Text, join}
use socket_scan_patterns.Text.Order.{sort_texts-eq_of_perm}
use socket_scan_patterns.TextSet.{has, add_all}
use socket_scan_patterns.TextSet.Laws.{has_iff, has-add_all, Nodup-add_all}

-- some set holds the flag
abbrev pub has_any : Text → List Text → Bool
has_any f [] = false
has_any f (set ∷ sets) = has f (characters set) || has_any f sets

has-seen_flags :
    (f : Text) (sets seen : List Text)
    → has f (seen_flags sets seen) ≡ (has f seen || has_any f sets)
unfolding seen_flags
has-seen_flags f [] seen = ground arith
has-seen_flags f (set ∷ sets) seen = ground (
  arith,
  has-seen_flags f sets (add_all (characters set) seen),
  has-add_all f (characters set) seen,
)

Nodup-seen_flags : (sets seen : List Text) → Nodup seen → Nodup (seen_flags sets seen)
unfolding seen_flags
Nodup-seen_flags [] seen n = n
Nodup-seen_flags (set ∷ sets) seen n =
    Nodup-seen_flags sets (add_all (characters set) seen) (Nodup-add_all (characters set) seen n)

Mem-seen_flags :
    (f : Text) (sets : List Text) → Mem f (seen_flags sets []) ↔ (has_any f sets ≡ true)
unfolding has
Mem-seen_flags f sets = (
  λ m. rw has-seen_flags at ((has_iff f (seen_flags sets [])).1 m),
  λ h. (has_iff f (seen_flags sets [])).0 (rw has-seen_flags h),
)

-- Two lists of flag strings in which the same flags occur merge to the same string, whatever the
-- order, the grouping and the repetitions.
pub merge_regex_flags-eq_of_same :
    (sets sets' : List Text)
    → ((f : Text) → has_any f sets ≡ has_any f sets')
    → merge_regex_flags sets ≡ merge_regex_flags sets'
unfolding merge_regex_flags
merge_regex_flags-eq_of_same sets sets' same = ap (join []) (
    sort_texts-eq_of_perm (seen_flags sets []) (seen_flags sets' []) (
      (perm_ext_iff_of_Nodup (Nodup-seen_flags sets [] Nodup-nil)
          (Nodup-seen_flags sets' [] Nodup-nil)).1
        λ f. (
          λ m. (Mem-seen_flags f sets').1 (rw (same f) at ((Mem-seen_flags f sets).0 m)),
          λ m. (Mem-seen_flags f sets).1 (rw (← same f) at ((Mem-seen_flags f sets').0 m)),
        )))
