-- ===== src/Dialect/Scan.antt =====
-- What the scanners of inline flag groups find.
use socket_scan_patterns.Prelude.{
  ℕ, zero, suc, ◌≤◌, ◌<◌, Bool, true, ◌||◌, List, [], ◌∷◌, ◌++◌, none, some, ◌≡◌, refl, sym, ap,
  ◌∙◌, arith, ◌==◌, length, length-append, append_assoc, append-nil, All, Bool-cases, Option-cases,
  inl, inr,
}
use socket_scan_patterns.Dialect.{
  letters_then_close, flag_group, leading_run, strip_leading_flags, take_letter, take_letters,
  has_flag,
}
use socket_scan_patterns.Text.{Text, is_letter}

abbrev pub IsLetter : ℕ → Type 0
IsLetter c = is_letter c ≡ true

-- `(?` letters `)`
abbrev pub group : Text → Text
group letters = b'(' ∷ b'?' ∷ (letters ++ b')' ∷ [])

abbrev pub groups_text : List Text → Text
groups_text [] = []
groups_text (g ∷ gs) = group g ++ groups_text gs

abbrev pub groups_letters : List Text → Text
groups_letters [] = []
groups_letters (g ∷ gs) = g ++ groups_letters gs

letters_then_close-reads :
    (read s letters rest : Text)
    → letters_then_close read s ≡ some (letters, rest)
    → (more : Text) × (letters ≡ read ++ more) × (s ≡ more ++ b')' ∷ rest) × All IsLetter more
unfolding letters_then_close
letters_then_close-reads read [] letters rest h = cc
letters_then_close-reads [] (c ∷ cs) letters rest h = elim (Bool-cases (is_letter c)) [
  | inl letter ↦
      let (more, e, split, all) =
        letters_then_close-reads (c ∷ []) cs letters rest (ground arith) in
      (c ∷ more, e, ap (◌∷◌ c) split, (letter, all))
  | inr not_letter ↦ absurd (ground arith)
]
letters_then_close-reads (r ∷ rs) (c ∷ cs) letters rest h = elim (Bool-cases (is_letter c)) [
  | inl letter ↦
      let (more, e, split, all) =
        letters_then_close-reads (r ∷ (rs ++ c ∷ [])) cs letters rest (ground arith) in
      (c ∷ more, e ∙ ap (◌∷◌ r) (append_assoc rs (c ∷ []) more), ap (◌∷◌ c) split, (letter, all))
  | inr not_letter ↦ ([], ground (arith, append-nil rs), ground arith, tt)
]

-- A group that is found stands at the start of the text.
pub flag_group-reads :
    (s letters rest : Text)
    → flag_group s ≡ some (letters, rest)
    → (s ≡ group letters ++ rest) × All IsLetter letters
unfolding flag_group
flag_group-reads [] letters rest h = cc
flag_group-reads (a ∷ []) letters rest h = cc
flag_group-reads (a ∷ b ∷ s) letters rest h =
    let opened : letters_then_close [] s ≡ some (letters, rest) = ground arith in
    let (more, e, split, all) = letters_then_close-reads [] s letters rest opened in
    let a_is : a ≡ b'(' = ground arith in
    let b_is : b ≡ b'?' = ground arith in
    (
      rw (a_is, b_is, split, e)
          (ap (λ (t : Text). b'(' ∷ b'?' ∷ t) (sym (append_assoc more (b')' ∷ []) rest))),
      rw e all,
    )

length-group : (letters rest : Text) → length rest < length (group letters ++ rest)
length-group letters rest = omega (arith, length-append (letters ++ b')' ∷ []) rest)

-- what `strip_leading_flags` leaves, and what it took
pub record IsStripped (s letters rest : Text) : Type 0 where
  pub groups : List Text
  pub splits : s ≡ groups_text groups ++ rest
  pub are_letters : letters ≡ groups_letters groups
  pub all_letters : All (All IsLetter) groups
  pub stops : flag_group rest ≡ none

leading_run-IsStripped :
    (fuel : ℕ) (s : Text)
    → length s ≤ fuel
    → IsStripped s (leading_run fuel s).0 (leading_run fuel s).1
unfolding leading_run
leading_run-IsStripped zero [] h = record {
  groups = [];
  splits = refl;
  are_letters = refl;
  all_letters = tt;
  stops = (unfold flag_group in refl);
}
leading_run-IsStripped zero (c ∷ cs) h = absurd (omega arith)
leading_run-IsStripped (suc fuel) s h = elim (Option-cases (flag_group s)) [
  | inl stop ↦
      rw (stop, leading_run)
        (record { groups = []; splits = refl; are_letters = refl; all_letters = tt; stops = stop })
  | inr ((letters, rest), found) ↦
      let (split, all) = flag_group-reads s letters rest found in
      let shorter : length rest ≤ fuel =
        omega (arith, ap {B = ℕ} length split, length-group letters rest) in
      let later = leading_run-IsStripped fuel rest shorter in
      rw (found, leading_run)
        (record {
          groups = letters ∷ later.groups;
          splits =
              split
              ∙ ap (λ (t : Text). group letters ++ t) later.splits
              ∙ sym (append_assoc (group letters) (groups_text later.groups) _);
          are_letters = ap (λ (t : Text). letters ++ t) later.are_letters;
          all_letters = (all, later.all_letters);
          stops = later.stops;
        })
]

-- The run that is cut off is made of flag groups of letters, it and what is left make up the text,
-- and no group is left at the start.
pub strip_leading_flags-IsStripped :
    (s : Text) → IsStripped s (strip_leading_flags s).0 (strip_leading_flags s).1
unfolding strip_leading_flags
strip_leading_flags-IsStripped s = leading_run-IsStripped (length s) s (omega arith)

-- The loop over the letters

abbrev pub is_js_letter : ℕ → Bool
is_js_letter c = c == b'i' || c == b'm' || c == b's'

pub has_flag-concat :
    (c f : ℕ) (flags : Text) → has_flag c (flags ++ f ∷ []) ≡ (has_flag c flags || f == c)
has_flag-concat c f [] = ground arith
has_flag-concat c f (g ∷ gs) = ground (arith, has_flag-concat c f gs)

take_letter-flags :
    (l : ℕ) (s : Text × Bool)
    → (take_letter l s).1 ≡ true
    → (s.1 ≡ true)
      × (is_js_letter l ≡ true)
      × ((c : ℕ) → has_flag c (take_letter l s).0 ≡ (has_flag c s.0 || l == c))
unfolding take_letter
take_letter-flags l (flags, t) h =
    (ground arith, ground arith, λ c. ground (arith, has_flag-concat c l flags))

-- If every letter was translatable, each is `i`, `m` or `s`, and the flags are those letters.
pub take_letters-flags :
    (ls : Text) (s : Text × Bool)
    → (take_letters ls s).1 ≡ true
    → (s.1 ≡ true)
      × All (λ l. is_js_letter l ≡ true) ls
      × ((c : ℕ) → has_flag c (take_letters ls s).0 ≡ (has_flag c s.0 || has_flag c ls))
unfolding take_letters
take_letters-flags [] s h = (h, tt, λ c. ground arith)
take_letters-flags (l ∷ ls) s h =
    let (kept, all, flags) = take_letters-flags ls (take_letter l s) h in
    let (start, is_one, flag) = take_letter-flags l s kept in
    (start, (is_one, all), λ c. ground (arith, flags c, flag c))

-- Letters that are all `i`, `m` or `s` keep a pattern translatable.
pub take_letters-translatable :
    (ls : Text) (s : Text × Bool)
    → All (λ l. is_js_letter l ≡ true) ls
    → (take_letters ls s).1 ≡ s.1
unfolding take_letters take_letter
take_letters-translatable [] s h = refl
take_letters-translatable (l ∷ ls) (flags, t) (p, h) =
    ground (arith, take_letters-translatable ls (take_letter l (flags, t)) h)
