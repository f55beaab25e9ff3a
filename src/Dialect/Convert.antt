-- ===== src/Dialect/Convert.antt =====
-- The rewriting of named groups leaves none of the Go and Python spelling behind.
use socket_scan_patterns.Prelude.{
  ℕ, Bool, true, false, ◌&&◌, ◌||◌, [], ◌∷◌, ◌++◌, ◌≡◌, refl, arith, ◌==◌, Bool-cases, inl, inr,
  not,
}
use socket_scan_patterns.Dialect.{convert_named_group_syntax}
use socket_scan_patterns.Text.{Text, codes, starts_with, includes}

abbrev pub go_open : Text
go_open = codes "(?P<"

-- where no group opens, the first code unit stays
convert-cons :
    (a : ℕ) (s : Text)
    → starts_with go_open (a ∷ s) ≡ false
    → convert_named_group_syntax (a ∷ s) ≡ a ∷ convert_named_group_syntax s
unfolding convert_named_group_syntax starts_with
convert-cons a [] h = refl
convert-cons a (b ∷ []) h = refl
convert-cons a (b ∷ c ∷ []) h = refl
convert-cons a (b ∷ c ∷ d ∷ s) h = ground arith

abbrev no_paren : Text → Bool
no_paren [] = true
no_paren (p ∷ ps) = not (p == b'(') && no_paren ps

convert_head :
    (s rest : Text) (p : ℕ)
    → starts_with go_open s ≡ true
    → starts_with (p ∷ rest) (convert_named_group_syntax s) ≡ true
    → p ≡ b'('
unfolding convert_named_group_syntax starts_with
convert_head (a ∷ b ∷ c ∷ d ∷ s) rest p h k = ground arith
convert_head [] rest p h k = cc
convert_head (a ∷ []) rest p h k = ground arith
convert_head (a ∷ b ∷ []) rest p h k = ground arith
convert_head (a ∷ b ∷ c ∷ []) rest p h k = ground arith

starts_with-step :
    (p a : ℕ) (ps s s' : Text)
    → (starts_with ps s' ≡ true → starts_with ps s ≡ true)
    → starts_with (p ∷ ps) (a ∷ s') ≡ true
    → starts_with (p ∷ ps) (a ∷ s) ≡ true
unfolding starts_with
starts_with-step p a ps s s' ih h = ground arith

-- a start with no bracket in it comes from the same start
starts_with-convert :
    (p s : Text)
    → no_paren p ≡ true
    → starts_with p (convert_named_group_syntax s) ≡ true
    → starts_with p s ≡ true
starts_with-convert [] s n h = (unfold starts_with in refl)
starts_with-convert (p ∷ ps) [] n h = (unfold starts_with convert_named_group_syntax in h)
starts_with-convert (p ∷ ps) (a ∷ s) n h = elim (Bool-cases (starts_with go_open (a ∷ s))) [
  | inl opening ↦ let paren = convert_head (a ∷ s) ps p opening h in absurd (ground arith)
  | inr closed ↦
      let kept : starts_with (p ∷ ps) (a ∷ convert_named_group_syntax s) ≡ true =
        rw (convert-cons a s closed) at h in
      starts_with-step p a ps s (convert_named_group_syntax s)
        (starts_with-convert ps s (ground arith)) kept
]

and_false : (x u v : Bool) → (v ≡ true → u ≡ true) → (x && u) ≡ false → (x && v) ≡ false
and_false true u v f h = ground arith
and_false false u v f h = refl

-- a kept code unit opens no group, also before the converted rest
kept_closed :
    (a : ℕ) (s : Text)
    → starts_with go_open (a ∷ s) ≡ false
    → starts_with go_open (a ∷ convert_named_group_syntax s) ≡ false
unfolding starts_with
kept_closed a s h =
    and_false (b'(' == a) (starts_with (codes "?P<") s) _
      (λ e. starts_with-convert (codes "?P<") s refl e) h

module _ (s : Text) where
  includes-cons :
      (a : ℕ) → includes go_open (a ∷ s) ≡ (starts_with go_open (a ∷ s) || includes go_open s)
  unfolding includes
  includes-cons a = refl

  clean-open : includes go_open s ≡ false → includes go_open (codes "(?<" ++ s) ≡ false
  unfolding includes
  clean-open h = ground arith

convert-open :
    (a b c d : ℕ) (s : Text)
    → starts_with go_open (a ∷ b ∷ c ∷ d ∷ s) ≡ true
    → convert_named_group_syntax (a ∷ b ∷ c ∷ d ∷ s) ≡ codes "(?<" ++ convert_named_group_syntax s
unfolding convert_named_group_syntax starts_with
convert-open a b c d s h = ground arith

clean-kept :
    (a : ℕ) (s : Text)
    → starts_with go_open (a ∷ s) ≡ false
    → includes go_open (convert_named_group_syntax s) ≡ false
    → includes go_open (convert_named_group_syntax (a ∷ s)) ≡ false
clean-kept a s closed ih =
    rw (convert-cons a s closed)
      (rw (includes-cons (convert_named_group_syntax s) a) (rw (kept_closed a s closed) ih))

-- No named group opening (?P< is left in a converted pattern.
pub convert_named_group_syntax-clean :
    (s : Text) → includes go_open (convert_named_group_syntax s) ≡ false
convert_named_group_syntax-clean [] = (unfold convert_named_group_syntax includes in refl)
convert_named_group_syntax-clean (a ∷ []) =
    clean-kept a [] (unfold starts_with in ground arith) (convert_named_group_syntax-clean [])
convert_named_group_syntax-clean (a ∷ b ∷ []) =
    clean-kept a (b ∷ []) (unfold starts_with in ground arith)
      (convert_named_group_syntax-clean (b ∷ []))
convert_named_group_syntax-clean (a ∷ b ∷ c ∷ []) =
    clean-kept a (b ∷ c ∷ []) (unfold starts_with in ground arith)
      (convert_named_group_syntax-clean (b ∷ c ∷ []))
convert_named_group_syntax-clean (a ∷ b ∷ c ∷ d ∷ s) =
    elim (Bool-cases (starts_with go_open (a ∷ b ∷ c ∷ d ∷ s))) [
      | inl opening ↦
          rw (convert-open a b c d s opening) (clean-open _ (convert_named_group_syntax-clean s))
      | inr closed ↦
          clean-kept a (b ∷ c ∷ d ∷ s) closed (convert_named_group_syntax-clean (b ∷ c ∷ d ∷ s))
    ]
