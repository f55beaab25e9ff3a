-- ===== src/Sorting.antt =====
-- `toSorted` of ECMAScript arrays: a stable sort by a comparator. The standard fixes the result
-- for a consistent comparator, so an insertion sort that keeps equals in order stands for it.
pub mod Laws
use socket_scan_patterns.Prelude.{Bool, true, false, List, [], ◌∷◌, Ordering, if◌then◌else◌}

-- the comparator's result is not positive
abbrev pub not_after {ℓ} : {A : Type ℓ} → (A → A → Ordering) → A → A → Bool
not_after cmp a b = elim (cmp a b) [ Ordering.gt ↦ false | _ ↦ true ]

module _ {ℓ} {A : Type ℓ} (le : A → A → Bool) where
  unfoldable pub insert_sorted : A → List A → List A
  insert_sorted x [] = x ∷ []
  insert_sorted x (y ∷ ys) =
      let rest = insert_sorted x ys in if le x y then x ∷ y ∷ ys else y ∷ rest

  unfoldable pub sort_by : List A → List A
  unfolding insert_sorted
  sort_by [] = []
  sort_by (x ∷ xs) = insert_sorted x (sort_by xs)

-- `xs.toSorted(cmp)`
unfoldable pub to_sorted {ℓ} : {A : Type ℓ} → (A → A → Ordering) → List A → List A
unfolding sort_by
to_sorted cmp xs = sort_by (not_after cmp) xs
