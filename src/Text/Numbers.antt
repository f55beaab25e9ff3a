-- ===== src/Text/Numbers.antt =====
-- A number in a template literal: its decimal digits.
use mathlib.Core.List.{reverse, reverse-reverse}
use socket_scan_patterns.Prelude.{
  ℕ, zero, suc, ◌+◌, ◌-◌, ◌*◌, ◌/◌, ◌%◌, ◌≤◌, ◌<◌, [], ◌∷◌, ◌≡◌, sym, ap, ◌∙◌, arith, ltb,
  if◌then◌else◌, Bool-cases, inl, inr,
}
use socket_scan_patterns.Text.{Text}

-- The digits, last one first. The number itself bounds how many there are.
unfoldable pub digits_back : ℕ → ℕ → Text
digits_back zero n = []
digits_back (suc fuel) n =
    let more = digits_back fuel (n / 10) in
    if ltb n 10 then (b'0' + n) ∷ [] else (b'0' + n % 10) ∷ more

-- `${n}`
unfoldable pub number_text : ℕ → Text
unfolding digits_back
number_text n = reverse (digits_back (suc n) n)

-- the number that digits stand for
abbrev value_back : Text → ℕ
value_back [] = 0
value_back (c ∷ cs) = (c - b'0') + 10 * value_back cs

value_back-digits_back : (fuel n : ℕ) → n < fuel → value_back (digits_back fuel n) ≡ n
unfolding digits_back
value_back-digits_back zero n h = absurd (omega arith)
value_back-digits_back (suc fuel) n h = elim (Bool-cases (ltb n 10)) [
  | inl small ↦ rw small (omega arith)
  | inr large ↦
      let least : 10 ≤ n = ground arith in
      rw large (omega (arith, value_back-digits_back fuel (n / 10) (omega arith)))
]

-- Different numbers have different digits.
pub number_text_injective : (n m : ℕ) → number_text n ≡ number_text m → n ≡ m
unfolding number_text
number_text_injective n m h =
    let same : digits_back (suc n) n ≡ digits_back (suc m) m =
      sym (reverse-reverse _) ∙ ap reverse h ∙ reverse-reverse _ in
    sym (value_back-digits_back (suc n) n (omega arith))
    ∙ ap value_back same
    ∙ value_back-digits_back (suc m) m (omega arith)
