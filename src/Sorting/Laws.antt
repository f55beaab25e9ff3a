-- ===== src/Sorting/Laws.antt =====
-- The sort rearranges, ascends, and depends on nothing but the elements where no two are tied.
use mathlib.Core.Bool.{Bool-set}
use mathlib.Core.List.{Mem, Perm, Pairwise, Pairwise-singleton, mem-cons_self}
use mathlib.Core.List.{mem-cons}
use mathlib.Core.List.Pairwise
use mathlib.Core.List.Perm
use mathlib.Core.Logic.Or
use socket_scan_patterns.Prelude.{
  Bool, true, false, List, [], ◌∷◌, ◌≡◌, sym, ap, ap₂, inl, inr, ◌∙◌, Bool-cases,
}
use socket_scan_patterns.Sorting.{insert_sorted, sort_by}

module _ {ℓ} {A : Type ℓ} (le : A → A → Bool) where
  -- the order of the list agrees with the test
  abbrev pub IsSorted : List A → Type ℓ
  IsSorted = Pairwise (λ a b. le a b ≡ true)

  abbrev pub IsBelow : A → List A → Type ℓ
  IsBelow a l = (x : A) → Mem x l → le a x ≡ true

  pub insert_sorted-perm : (x : A) (l : List A) → Perm (insert_sorted le x l) (x ∷ l)
  unfolding insert_sorted
  insert_sorted-perm x [] = Perm.rfl
  insert_sorted-perm x (y ∷ ys) = elim (Bool-cases (le x y)) [
    | inl first ↦ rw first Perm.rfl
    | inr later ↦ rw later (Perm.trans (Perm.cons y (insert_sorted-perm x ys)) (Perm.swap x y ys))
  ]

  -- Sorting loses and invents nothing.
  pub sort_by-perm : (l : List A) → Perm (sort_by le l) l
  unfolding sort_by
  sort_by-perm [] = Perm.rfl
  sort_by-perm (x ∷ xs) =
      Perm.trans (insert_sorted-perm x (sort_by le xs)) (Perm.cons x (sort_by-perm xs))

  IsBelow-cons : {a b : A} {xs : List A} → le a b ≡ true → IsBelow a xs → IsBelow a (b ∷ xs)
  IsBelow-cons {a} first others x m =
      Or.elim (Bool-set (le a x) true) (mem-cons.0 m) (λ e. ap (le a) e ∙ first) (others x)

  pub IsBelow-perm : {a : A} {xs ys : List A} → Perm xs ys → IsBelow a ys → IsBelow a xs
  IsBelow-perm p below x m = below x ((Perm.mem_iff p).0 m)

-- The order that the comparator describes: total and transitive.
pub record IsOrder {ℓ} {A : Type ℓ} (le : A → A → Bool) : Type ℓ where
  pub total : (a b : A) → le a b ≡ false → le b a ≡ true
  pub trans : (a b c : A) → le a b ≡ true → le b c ≡ true → le a c ≡ true

module _ {ℓ} {A : Type ℓ} (le : A → A → Bool) (o : IsOrder le) where
  pub IsBelow-head :
      {a b : A} {ys : List A} → le a b ≡ true → IsSorted le (b ∷ ys) → IsBelow le a (b ∷ ys)
  IsBelow-head {a} {b} first (Pairwise.cons below _) =
      IsBelow-cons le first (λ x m. o.trans a b x first (below x m))

  pub le_refl : (a : A) → le a a ≡ true
  le_refl a = elim (Bool-cases (le a a)) [ inl e ↦ e | inr e ↦ o.total a a e ]

  insert_sorted-IsSorted : (x : A) {l : List A} → IsSorted le l → IsSorted le (insert_sorted le x l)
  unfolding insert_sorted
  insert_sorted-IsSorted x Pairwise.nil = Pairwise-singleton _ x
  insert_sorted-IsSorted x (Pairwise.cons {a = y} {l = ys} below s) = elim (Bool-cases (le x y)) [
    | inl p ↦ let whole = Pairwise.cons below s in rw p (Pairwise.cons (IsBelow-head p whole) whole)
    | inr p ↦ rw p (
        Pairwise.cons
          (IsBelow-perm le (insert_sorted-perm le x ys) (IsBelow-cons le (o.total x y p) below))
          (insert_sorted-IsSorted x s))
  ]

  -- The result ascends.
  pub sort_by-IsSorted : (l : List A) → IsSorted le (sort_by le l)
  unfolding sort_by
  sort_by-IsSorted [] = Pairwise.nil
  sort_by-IsSorted (x ∷ xs) = insert_sorted-IsSorted x (sort_by-IsSorted xs)

  first_le :
      {a b : A} {xs ys : List A} → IsSorted le (a ∷ xs) → Perm (b ∷ ys) (a ∷ xs) → le a b ≡ true
  first_le {a} {b} s p = IsBelow-perm le p (IsBelow-head (le_refl a) s) b mem-cons_self

  -- no two different members are tied
  abbrev pub HasNoTies : List A → Type ℓ
  HasNoTies l = (a b : A) → Mem a l → Mem b l → le a b ≡ true → le b a ≡ true → a ≡ b

  pub HasNoTies-perm : {l r : List A} → Perm l r → HasNoTies r → HasNoTies l
  HasNoTies-perm p h a b ma mb = h a b ((Perm.mem_iff p).0 ma) ((Perm.mem_iff p).0 mb)

  HasNoTies-tail : {a : A} {xs : List A} → HasNoTies (a ∷ xs) → HasNoTies xs
  HasNoTies-tail ties x y mx my = ties x y (mem-cons.1 (Or.inr mx)) (mem-cons.1 (Or.inr my))

  same_first :
      {a b : A} {xs ys : List A}
      → HasNoTies (a ∷ xs)
      → IsSorted le (a ∷ xs)
      → IsSorted le (b ∷ ys)
      → Perm (a ∷ xs) (b ∷ ys)
      → a ≡ b
  same_first {a} {b} ties sx sy p =
      ties a b mem-cons_self ((Perm.mem_iff p).1 mem-cons_self) (first_le sx (Perm.symm p))
        (first_le sy p)

  IsSorted-unique :
      (xs ys : List A) → HasNoTies xs → IsSorted le xs → IsSorted le ys → Perm xs ys → xs ≡ ys
  IsSorted-unique [] ys ties sx sy p = Perm.nil-eq p
  IsSorted-unique (a ∷ xs) [] ties sx sy p = Perm.eq-nil p
  IsSorted-unique (a ∷ xs) (b ∷ ys) ties sx sy p =
      let first = same_first ties sx sy p in
      let rest = Perm.cons_inv (Perm.trans p (Perm.cons' (sym first) Perm.rfl)) in
      ap₂ ◌∷◌ first (
        IsSorted-unique xs ys (HasNoTies-tail ties) (Pairwise.of_cons sx) (Pairwise.of_cons sy)
          rest)

  -- Two arrangements of the same elements sort to the same list, where no two are tied.
  pub sort_by-eq_of_perm : (l r : List A) → HasNoTies l → Perm l r → sort_by le l ≡ sort_by le r
  sort_by-eq_of_perm l r ties p =
      IsSorted-unique (sort_by le l) (sort_by le r) (HasNoTies-perm (sort_by-perm le l) ties)
        (sort_by-IsSorted l) (sort_by-IsSorted r)
        (Perm.trans (sort_by-perm le l) (Perm.trans p (Perm.symm (sort_by-perm le r))))
