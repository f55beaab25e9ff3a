-- ===== src/Prelude/Lists.antt =====
-- Lists measured by native numbers, searched by Boolean tests, and predicates by recursion.
use Prim.Native.Nat.{ℕ, zero, suc, ◌+◌, ◌≤◌}
use mathlib.Core.Path.{◌≡◌, refl, ap, ◌∙◌}
use mathlib.Core.HLevel.{×_prop}
use mathlib.Core.Logic.Or
use mathlib.Core.Logic.{inl, inr}
use mathlib.Core.Bool.{Bool-set, Bool, true, false, ◌&&◌, ◌||◌}
use mathlib.Core.List.{Mem, Mem-prop, mem-cons, not-mem-nil, List, [], ◌∷◌, ◌++◌, map}
use mathlib.Core.Option.{Option, none, some}
use native.Mathlib.Omega.{arith}
use socket_scan_patterns.Prelude.Tests.{if◌then◌else◌, Bool-cases}

module _ {ℓ} {A : Type ℓ} where
  abbrev pub length : List A → ℕ
  length [] = 0
  length (x ∷ xs) = suc (length xs)

  abbrev pub take : ℕ → List A → List A
  take zero xs = []
  take (suc n) [] = []
  take (suc n) (x ∷ xs) = x ∷ take n xs

  abbrev pub drop : ℕ → List A → List A
  drop zero xs = xs
  drop (suc n) [] = []
  drop (suc n) (x ∷ xs) = drop n xs

  abbrev pub get_elem? : List A → ℕ → Option A
  get_elem? [] i = none
  get_elem? (x ∷ xs) zero = some x
  get_elem? (x ∷ xs) (suc i) = get_elem? xs i

  -- `xs.filter(p)`
  abbrev pub keep : (A → Bool) → List A → List A
  keep p [] = []
  keep p (x ∷ xs) = let rest = keep p xs in if p x then x ∷ rest else rest

  -- `xs.find(p)`
  abbrev pub find : (A → Bool) → List A → Option A
  find p [] = none
  find p (x ∷ xs) = let rest = find p xs in if p x then some x else rest

  abbrev pub every : (A → Bool) → List A → Bool
  every p [] = true
  every p (x ∷ xs) = p x && every p xs

  abbrev pub some_of : (A → Bool) → List A → Bool
  some_of p [] = false
  some_of p (x ∷ xs) = p x || some_of p xs

  pub length-append : (xs ys : List A) → length (xs ++ ys) ≡ length xs + length ys
  length-append [] ys = omega arith
  length-append (x ∷ xs) ys = omega (arith, length-append xs ys)

  pub length-keep-le : (p : A → Bool) (xs : List A) → length (keep p xs) ≤ length xs
  length-keep-le p [] = omega arith
  length-keep-le p (x ∷ xs) = ground (arith, length-keep-le p xs)

pub length-map {ℓ κ} :
    {A : Type ℓ} {B : Type κ} (f : A → B) (xs : List A) → length (map f xs) ≡ length xs
length-map f [] = refl
length-map f (x ∷ xs) = omega (arith, length-map f xs)

module _ {ℓ κ} {A : Type ℓ} (P : A → Type κ) where
  abbrev pub All : List A → Type κ
  All [] = Unit
  All (x ∷ xs) = P x × All xs

  pub All-append : (xs ys : List A) → All xs → All ys → All (xs ++ ys)
  All-append [] ys h k = k
  All-append (x ∷ xs) ys (p, h) k = (p, All-append xs ys h k)

  pub All-map {μ} : {B : Type μ} (f : B → A) (xs : List B) → ((b : B) → P (f b)) → All (map f xs)
  All-map f [] h = tt
  All-map f (x ∷ xs) h = (h x, All-map f xs h)

  pub All-of : ((a : A) → P a) → (xs : List A) → All xs
  All-of h [] = tt
  All-of h (x ∷ xs) = (h x, All-of h xs)

-- the members of a filtered list
module _ {ℓ} {A : Type ℓ} (p : A → Bool) where
  pub keep→Mem : (a : A) (xs : List A) → Mem a (keep p xs) → Mem a xs × (p a ≡ true)
  keep→Mem a [] m = absurd (not-mem-nil m)
  keep→Mem a (x ∷ xs) m = elim (Bool-cases (p x)) [
    | inl kept ↦
        Or.elim (×_prop Mem-prop (Bool-set _ _)) (mem-cons.0 (rw kept at m))
          (λ e. (mem-cons.1 (Or.inl e), ap p e ∙ kept))
          (λ n. let (there, holds) = keep→Mem a xs n in (mem-cons.1 (Or.inr there), holds))
    | inr dropped ↦
        let (there, holds) = keep→Mem a xs (rw dropped at m) in (mem-cons.1 (Or.inr there), holds)
  ]

  pub Mem→keep : (a : A) (xs : List A) → Mem a xs → p a ≡ true → Mem a (keep p xs)
  Mem→keep a [] m h = absurd (not-mem-nil m)
  Mem→keep a (x ∷ xs) m h = elim (Bool-cases (p x)) [
    | inl kept ↦ rw kept (
        Or.elim Mem-prop (mem-cons.0 m) (λ e. mem-cons.1 (Or.inl e))
          (λ n. mem-cons.1 (Or.inr (Mem→keep a xs n h))))
    | inr dropped ↦
        rw dropped
          (Or.elim Mem-prop (mem-cons.0 m) (λ e. cc (ap p e, h, dropped)) (λ n. Mem→keep a xs n h))
  ]
