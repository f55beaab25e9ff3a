-- ===== src/NpmScan/Receipt/Names.antt =====
-- The names of the artifacts that hold receipts.
use mathlib.Core.List.{reverse_aux}
use socket_scan_patterns.Failure.{ok, ok_injective}
use socket_scan_patterns.Json.{
  number, Number, whole, minus, not_whole, max_safe_integer, safe_count,
}
use socket_scan_patterns.NpmScan.Receipt.{
  is_positive, value_of, npm_scan_receipt_artifact_name, npm_scan_receipt_artifact_prefix,
}
use socket_scan_patterns.Prelude.{
  ℕ, zero, suc, Bool, true, [], ◌∷◌, ◌++◌, some, ◌≡◌, refl, sym, ap, ◌∙◌, arith, leb, Bool-cases,
  inl, inr, every, ltb, and_iff, ◌/◌,
}
use socket_scan_patterns.Text.Numbers.{number_text, number_text_injective, digits_back}
use socket_scan_patterns.Text.{Text, codes, is_digit}

heads_eq : {c d : ℕ} {s t : Text} → c ∷ s ≡ d ∷ t → c ≡ d
heads_eq h = cc

tails_eq : {c d : ℕ} {s t : Text} → c ∷ s ≡ d ∷ t → s ≡ t
tails_eq h = cc

cons_eq : {c d : ℕ} {s t : Text} → c ≡ d → s ≡ t → c ∷ s ≡ d ∷ t
cons_eq h k = cc

-- Texts of digits end at the first dash.
dash_splits :
    (s t u v : Text)
    → every is_digit s ≡ true
    → every is_digit t ≡ true
    → s ++ (b'-' ∷ u) ≡ t ++ (b'-' ∷ v)
    → (s ≡ t) × (u ≡ v)
dash_splits [] [] u v hs ht h = (refl, cc)
dash_splits [] (c ∷ t) u v hs ht h = absurd (ground (arith, heads_eq h))
dash_splits (c ∷ s) [] u v hs ht h = absurd (ground (arith, heads_eq (sym h)))
dash_splits (c ∷ s) (d ∷ t) u v hs ht h =
    let (ds, ss) = (and_iff (is_digit c) (every is_digit s)).0 hs in
    let (dt, ts) = (and_iff (is_digit d) (every is_digit t)).0 ht in
    let (same, after) = dash_splits s t u v ss ts (tails_eq h) in (cons_eq (heads_eq h) same, after)

digits_back-every : (fuel n : ℕ) → every is_digit (digits_back fuel n) ≡ true
unfolding digits_back
digits_back-every zero n = refl
digits_back-every (suc fuel) n = elim (Bool-cases (ltb n 10)) [
  | inl small ↦ rw small (ground arith)
  | inr large ↦ rw large ((and_iff _ _).1 (ground arith, digits_back-every fuel (n / 10)))
]

every-reverse_aux :
    (p : ℕ → Bool) (s t : Text)
    → every p s ≡ true
    → every p t ≡ true
    → every p (reverse_aux s t) ≡ true
every-reverse_aux p [] t hs ht = ht
every-reverse_aux p (c ∷ s) t hs ht =
    let (first, rest) = (and_iff (p c) (every p s)).0 hs in
    every-reverse_aux p s (c ∷ t) rest ((and_iff (p c) (every p t)).1 (first, ht))

number_text-every : (n : ℕ) → every is_digit (number_text n) ≡ true
unfolding number_text
number_text-every n =
    every-reverse_aux is_digit (digits_back (suc n) n) [] (digits_back-every (suc n) n) refl

append_cancel : (p : Text) {s t : Text} → p ++ s ≡ p ++ t → s ≡ t
append_cancel [] h = h
append_cancel (c ∷ p) h = append_cancel p (tails_eq h)

-- what a name says of the numbers that it is made of
IsNamed : Number → Number → Text → Type 0
IsNamed run_id run_attempt name =
    (run attempt : ℕ) × (run_id ≡ whole run)
    × (run_attempt ≡ whole attempt)
    × (name
        ≡ npm_scan_receipt_artifact_prefix
          ++ (codes "-" ++ (number_text run ++ (codes "-" ++ number_text attempt))))

is_positive-safe_count :
    (x : Number)
    → is_positive (safe_count (some (number x))) ≡ true
    → x ≡ whole (value_of (safe_count (some (number x))))
unfolding safe_count
is_positive-safe_count (whole n) h = elim (Bool-cases (leb n max_safe_integer)) [
  | inl e ↦ rw e refl
  | inr e ↦ cc (rw e at h)
]
is_positive-safe_count (minus n) h = cc
is_positive-safe_count not_whole h = cc

npm_scan_receipt_artifact_name-IsNamed :
    (run_id run_attempt : Number) (name : Text)
    → npm_scan_receipt_artifact_name run_id run_attempt ≡ ok name
    → IsNamed run_id run_attempt name
unfolding npm_scan_receipt_artifact_name IsNamed
npm_scan_receipt_artifact_name-IsNamed run_id run_attempt name h =
    let run = safe_count (some (number run_id)) in
    let attempt = safe_count (some (number run_attempt)) in
    elim (Bool-cases (is_positive run)) [
      | inl a ↦ elim (Bool-cases (is_positive attempt)) [
        | inl b ↦ (
          value_of run,
          value_of attempt,
          is_positive-safe_count run_id a,
          is_positive-safe_count run_attempt b,
          sym (ok_injective (rw (a, b) at h)),
        )
        | inr b ↦ cc (rw (a, b) at h)
      ]
      | inr a ↦ cc (rw a at h)
    ]

IsNamed-injective :
    (run_id run_attempt other_id other_attempt : Number) (name : Text)
    → IsNamed run_id run_attempt name
    → IsNamed other_id other_attempt name
    → (run_id ≡ other_id) × (run_attempt ≡ other_attempt)
unfolding IsNamed
IsNamed-injective run_id run_attempt other_id other_attempt name (r, a, rs, as', e)
      (s, b, ss, bs, f) =
    let (same_run, same_attempt) =
      dash_splits (number_text r) (number_text s) (number_text a) (number_text b)
        (number_text-every r) (number_text-every s)
        (append_cancel (npm_scan_receipt_artifact_prefix ++ codes "-") (sym e ∙ f)) in
    (
      rs ∙ ap whole (number_text_injective r s same_run) ∙ sym ss,
      as' ∙ ap whole (number_text_injective a b same_attempt) ∙ sym bs,
    )

-- A name is given to one pair of run and attempt only.
pub npm_scan_receipt_artifact_name_injective :
    (run_id run_attempt other_id other_attempt : Number) (name : Text)
    → npm_scan_receipt_artifact_name run_id run_attempt ≡ ok name
    → npm_scan_receipt_artifact_name other_id other_attempt ≡ ok name
    → (run_id ≡ other_id) × (run_attempt ≡ other_attempt)
npm_scan_receipt_artifact_name_injective run_id run_attempt other_id other_attempt name h k =
    IsNamed-injective run_id run_attempt other_id other_attempt name
      (npm_scan_receipt_artifact_name-IsNamed run_id run_attempt name h)
      (npm_scan_receipt_artifact_name-IsNamed other_id other_attempt name k)
