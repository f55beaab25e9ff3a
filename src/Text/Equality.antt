-- ===== src/Text/Equality.antt =====
-- `===` on texts decides equality, and the laws of prefixes.
use mathlib.Core.HLevel.{hedberg}
use native.Mathlib.Decide.{ℕ_discrete}
use socket_scan_patterns.Prelude.{true, [], ◌∷◌, ◌++◌, ◌≡◌, refl, ◌↔◌, arith}
use socket_scan_patterns.Text.{Text, text_eq, starts_with}

pub text_eq_iff : (a b : Text) → (text_eq a b ≡ true) ↔ (a ≡ b)
unfolding text_eq
text_eq_iff [] [] = (λ h. refl, λ h. refl)
text_eq_iff [] (b ∷ bs) = (λ h. cc, λ h. cc)
text_eq_iff (a ∷ l) [] = (λ h. cc, λ h. cc)
text_eq_iff (a ∷ l) (b ∷ bs) = ground (arith, text_eq_iff l bs)

pub text_eq_refl : (a : Text) → text_eq a a ≡ true
text_eq_refl a = (text_eq_iff a a).1 refl

pub Text-discrete : Discrete Text
Text-discrete = hlevel ℕ_discrete

pub Text-set : IsSet Text
Text-set = hedberg Text-discrete

-- A text that starts with `p` is `p` and a rest.
pub starts_with-split : (p s : Text) → starts_with p s ≡ true → (rest : Text) × (s ≡ p ++ rest)
unfolding starts_with
starts_with-split [] s h = (s, refl)
starts_with-split (p ∷ ps) [] h = cc
starts_with-split (p ∷ ps) (c ∷ cs) h =
    let (rest, e) = starts_with-split ps cs (ground arith) in (rest, ground (arith, e))

pub starts_with-append : (p rest : Text) → starts_with p (p ++ rest) ≡ true
unfolding starts_with
starts_with-append [] rest = refl
starts_with-append (p ∷ ps) rest = ground (arith, starts_with-append ps rest)
