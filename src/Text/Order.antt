-- ===== src/Text/Order.antt =====
-- The default order of `toSorted()`: texts compared by their code units.
use socket_scan_patterns.Prelude.{
  Bool, true, false, List, [], ◌∷◌, ◌≡◌, refl, arith, Ordering, compare,
}
use socket_scan_patterns.Sorting.{not_after, to_sorted}
use socket_scan_patterns.Sorting.Laws.{IsOrder, sort_by-eq_of_perm}
use mathlib.Core.List.{Perm}
use socket_scan_patterns.Text.{Text}

unfoldable pub text_compare : Text → Text → Ordering
text_compare [] [] = Ordering.eq
text_compare [] (b ∷ bs) = Ordering.lt
text_compare (a ∷ l) [] = Ordering.gt
text_compare (a ∷ l) (b ∷ bs) = elim (compare a b) [
  | Ordering.lt ↦ Ordering.lt
  | Ordering.eq ↦ text_compare l bs
  | Ordering.gt ↦ Ordering.gt
]

abbrev pub text_le : Text → Text → Bool
text_le = not_after text_compare

-- `texts.toSorted()`
unfoldable pub sort_texts : List Text → List Text
unfolding to_sorted
sort_texts texts = to_sorted text_compare texts

text_le_total : (a b : Text) → text_le a b ≡ false → text_le b a ≡ true
unfolding text_compare
text_le_total [] [] h = cc
text_le_total [] (b ∷ bs) h = cc
text_le_total (a ∷ l) [] h = refl
text_le_total (a ∷ l) (b ∷ bs) h = ground (arith, text_le_total l bs)

text_le_trans : (a b c : Text) → text_le a b ≡ true → text_le b c ≡ true → text_le a c ≡ true
unfolding text_compare
text_le_trans [] [] c h k = k
text_le_trans [] (b ∷ bs) [] h k = cc
text_le_trans [] (b ∷ bs) (c ∷ cs) h k = refl
text_le_trans (a ∷ l) [] c h k = cc
text_le_trans (a ∷ l) (b ∷ bs) [] h k = cc
text_le_trans (a ∷ l) (b ∷ bs) (c ∷ cs) h k = ground (arith, text_le_trans l bs cs)

pub text_le_antisymm : (a b : Text) → text_le a b ≡ true → text_le b a ≡ true → a ≡ b
unfolding text_compare
text_le_antisymm [] [] h k = refl
text_le_antisymm [] (b ∷ bs) h k = cc
text_le_antisymm (a ∷ l) [] h k = cc
text_le_antisymm (a ∷ l) (b ∷ bs) h k = ground (arith, text_le_antisymm l bs)

pub text_le-IsOrder : IsOrder text_le
text_le-IsOrder = record { total = text_le_total; trans = text_le_trans }

-- Sorting texts forgets their arrangement.
pub sort_texts-eq_of_perm : (l r : List Text) → Perm l r → sort_texts l ≡ sort_texts r
unfolding sort_texts
sort_texts-eq_of_perm l r p =
    sort_by-eq_of_perm text_le text_le-IsOrder l r (λ a b _ _. text_le_antisymm a b) p
