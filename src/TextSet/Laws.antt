-- ===== src/TextSet/Laws.antt =====
-- Membership, uniqueness and lookup.
use mathlib.Core.List.{Mem, Nodup, mem-cons, not-mem-nil}
use mathlib.Core.List.{Nodup-concat, concat-eq-append}
use mathlib.Core.Logic.Or
use mathlib.Core.Bool.{Bool-set}
use socket_scan_patterns.Prelude.{
  true, false, ◌||◌, List, [], ◌∷◌, ◌++◌, ◌≡◌, refl, sym, ◌↔◌, inl, inr, some, arith, if◌then◌else◌,
  Bool-cases,
}
use socket_scan_patterns.Text.{Text, text_eq}
use socket_scan_patterns.Text.Equality.{text_eq_iff, text_eq_refl}
use socket_scan_patterns.TextSet.{has, add, add_all, get, put}

pub has→Mem : (t : Text) (xs : List Text) → has t xs ≡ true → Mem t xs
unfolding has
has→Mem t [] h = cc
has→Mem t (x ∷ xs) h = elim (Bool-cases (text_eq x t)) [
  | inl e ↦ mem-cons.1 (Or.inl (sym ((text_eq_iff x t).0 e)))
  | inr e ↦ mem-cons.1 (Or.inr (has→Mem t xs (rw e at h)))
]

pub Mem→has : (t : Text) (xs : List Text) → Mem t xs → has t xs ≡ true
unfolding has
Mem→has t [] m = absurd (not-mem-nil m)
Mem→has t (x ∷ xs) m =
    Or.elim (Bool-set _ _) (mem-cons.0 m) (λ e. rw e (rw (text_eq_refl x) refl))
      (λ n. ground (arith, Mem→has t xs n))

pub has_iff : (t : Text) (xs : List Text) → (has t xs ≡ true) ↔ Mem t xs
has_iff t xs = (has→Mem t xs, Mem→has t xs)

pub has-false→not_mem : (t : Text) (xs : List Text) → has t xs ≡ false → ¬ Mem t xs
has-false→not_mem t xs h m = cc (Mem→has t xs m)

module _ {ℓ} {V : Type ℓ} where
  -- What was put is found, and nothing else changes.
  pub get-put :
      (k j : Text) (v : V) (m : List (Text × V))
      → get j (put k v m) ≡ (if text_eq k j then some v else get j m)
  unfolding get put
  get-put k j v [] = refl
  get-put k j v ((i, w) ∷ m) =
      ground (arith, text_eq_iff k j, text_eq_iff i k, text_eq_iff i j, get-put k j v m)

has-concat : (j t : Text) (set : List Text) → has j (set ++ t ∷ []) ≡ (has j set || text_eq t j)
unfolding has
has-concat j t [] = ground arith
has-concat j t (x ∷ xs) = ground (arith, has-concat j t xs)

pub has-add : (j t : Text) (set : List Text) → has j (add t set) ≡ (has j set || text_eq t j)
unfolding add
has-add j t set = elim (Bool-cases (has t set)) [
  | inl old ↦ rw old (ground (arith, text_eq_iff t j))
  | inr new ↦ rw new (has-concat j t set)
]

-- The members of a filled set are those it had and those that were added.
pub has-add_all : (j : Text) (ts set : List Text) → has j (add_all ts set) ≡ (has j set || has j ts)
unfolding add_all has
has-add_all j [] set = ground arith
has-add_all j (t ∷ ts) set = ground (arith, has-add_all j ts (add t set), has-add j t set)

Nodup-add : (t : Text) (set : List Text) → Nodup set → Nodup (add t set)
unfolding add
Nodup-add t set n = elim (Bool-cases (has t set)) [
  | inl old ↦ rw old n
  | inr new ↦
      rw new (rw concat-eq-append at ((Nodup-concat set t).1 (has-false→not_mem t set new, n)))
]

-- A set holds nothing twice.
pub Nodup-add_all : (ts set : List Text) → Nodup set → Nodup (add_all ts set)
unfolding add_all
Nodup-add_all [] set n = n
Nodup-add_all (t ∷ ts) set n = Nodup-add_all ts (add t set) (Nodup-add t set n)

pub Mem-add_all_iff : (j : Text) (ts : List Text) → Mem j (add_all ts []) ↔ Mem j ts
unfolding has
Mem-add_all_iff j ts = (
  λ m. has→Mem j ts (rw has-add_all at (Mem→has j (add_all ts []) m)),
  λ m. has→Mem j (add_all ts []) (rw has-add_all (Mem→has j ts m)),
)
