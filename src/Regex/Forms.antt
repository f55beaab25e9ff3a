-- ===== src/Regex/Forms.antt =====
-- Patterns that are anchored at both ends, part by part.
use socket_scan_patterns.Prelude.{
  ℕ, Bool, true, [], ◌∷◌, ◌++◌, ◌≡◌, ◌≢◌, ◌↔◌, refl, sym, ap, ap₂, ◌∙◌, subst, every, and_iff,
  append_assoc, append-nil,
}
use socket_scan_patterns.Regex.Notation.{word, plus}
use socket_scan_patterns.Regex.Whole.{Reads, IsPlain, test_iff, Reads-word}
use socket_scan_patterns.Regex.{Rx, unit, seq, star, text_start, text_end, test}
use socket_scan_patterns.Text.{Text}

pub IsPlain-word : (w : Text) → IsPlain (word w)
IsPlain-word [] = tt
IsPlain-word (c ∷ w) = (tt, IsPlain-word w)

-- A pattern that is a word and a remainder passes on the word and what the remainder reads.
pub word_start_iff :
    (w : Text) (r : Rx) (text : Text)
    → IsPlain r
    → (test (seq text_start (seq (word w) r)) text ≡ true)
      ↔ ((a : Text) × (rest : Text) × (text ≡ w ++ (a ++ rest)) × Reads r a rest)
word_start_iff w r text plain = (
  λ h.
      let (whole, rest, split, (b, a, parts, is_word, reads)) =
        (test_iff (seq (word w) r) text (IsPlain-word w, plain)).0 h in
      (
        a,
        rest,
        split
            ∙ ap (λ (t : Text). t ++ rest)
                (parts ∙ ap (λ (t : Text). t ++ a) ((Reads-word w b (a ++ rest)).0 is_word))
            ∙ append_assoc w a rest,
        reads,
      ),
  λ (a, rest, split, reads). (test_iff (seq (word w) r) text (IsPlain-word w, plain)).1 (
    w ++ a,
    rest,
    split ∙ sym (append_assoc w a rest),
    (w, a, refl, (Reads-word w w (a ++ rest)).1 refl, reads),
  ),
)

pub text_end_iff :
    (r : Rx) (a rest : Text) → Reads (seq r text_end) a rest ↔ (Reads r a [] × (rest ≡ []))
text_end_iff r a rest = (
  λ (b, c, split, reads, (nil, done)). (
    subst (λ (t : Text). Reads r t []) (sym (split ∙ ap (λ (t : Text). b ++ t) nil ∙ append-nil b))
        (subst (λ (t : Text). Reads r b t) (ap₂ (λ (s t : Text). s ++ t) nil done) reads),
    done,
  ),
  λ (reads, done).
      (a, [], sym (append-nil a), subst (λ (t : Text). Reads r a t) (sym done) reads, (refl, done)),
)

abbrev test_of : Rx → ℕ → Bool
test_of (unit t) = t
test_of _ = λ c. true

pub star_iff : (t : ℕ → Bool) (a rest : Text) → Reads (star (unit t)) a rest ↔ (every t a ≡ true)
star_iff t a rest = (
  λ (s, same, all).
      subst (λ (u : ℕ → Bool). every u a ≡ true) (sym (ap {B = ℕ → Bool} test_of same)) all,
  λ all. (t, refl, all),
)

first-all :
    (t : ℕ → Bool) (x : ℕ) (c a : Text)
    → a ≡ x ∷ c
    → t x ≡ true
    → every t c ≡ true
    → (a ≢ []) × (every t a ≡ true)
first-all t x c a split passes all =
    (λ e. cc (split, e), rw split ((and_iff (t x) (every t c)).1 (passes, all)))

plus-of :
    (t : ℕ → Bool) (a rest : Text) → (a ≢ []) × (every t a ≡ true) → Reads (plus (unit t)) a rest
plus-of t [] rest (given, all) = absurd (given refl)
plus-of t (x ∷ a) rest (given, all) =
    let (passes, others) = (and_iff (t x) (every t a)).0 all in
    (x ∷ [], a, refl, (x, passes, refl), (t, refl, others))

pub plus_iff :
    (t : ℕ → Bool) (a rest : Text) → Reads (plus (unit t)) a rest ↔ ((a ≢ []) × (every t a ≡ true))
plus_iff t a rest = (
  λ (b, c, split, (x, passes, one), others).
      first-all t x c a (split ∙ ap (λ (s : Text). s ++ c) one) passes
        ((star_iff t c rest).0 others),
  plus-of t a rest,
)

-- A word and a repetition of at least one unit.
pub word_plus_iff :
    (w : Text) (t : ℕ → Bool) (a rest : Text)
    → Reads (seq (word w) (plus (unit t))) a rest
      ↔ ((b : Text) × (a ≡ w ++ b) × (b ≢ []) × (every t b ≡ true))
word_plus_iff w t a rest = (
  λ (v, b, split, is_word, units).
      let (given, all) = (plus_iff t b rest).0 units in
      (b, split ∙ ap (λ (s : Text). s ++ b) ((Reads-word w v (b ++ rest)).0 is_word), given, all),
  λ (b, split, given, all).
      (w, b, split, (Reads-word w w (b ++ rest)).1 refl, (plus_iff t b rest).1 (given, all)),
)

-- A pattern between a word and the end of the text.
pub word_end_iff :
    (w : Text) (r : Rx) (text : Text)
    → IsPlain r
    → (test (seq text_start (seq (word w) (seq r text_end))) text ≡ true)
      ↔ ((a : Text) × (text ≡ w ++ a) × Reads r a [])
word_end_iff w r text plain = (
  λ h.
      let (a, rest, split, reads) = (word_start_iff w (seq r text_end) text (plain, tt)).0 h in
      let (inside, done) = (text_end_iff r a rest).0 reads in
      (
        a,
        split ∙ ap (λ (s : Text). w ++ s) (ap (λ (s : Text). a ++ s) done ∙ append-nil a),
        inside,
      ),
  λ (a, split, reads). (word_start_iff w (seq r text_end) text (plain, tt)).1 (
    a,
    [],
    split ∙ ap (λ (s : Text). w ++ s) (sym (append-nil a)),
    (text_end_iff r a []).1 (reads, refl),
  ),
)
