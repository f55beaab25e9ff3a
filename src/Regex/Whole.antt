-- ===== src/Regex/Whole.antt =====
-- What a pattern that is anchored at the start of the text reads.
use socket_scan_patterns.Prelude.{
  ℕ, zero, suc, ◌<◌, Bool, true, List, [], ◌∷◌, ◌++◌, Option, none, some, ◌≡◌, ◌⊎◌, ◌↔◌, refl, sym,
  ap, ◌∙◌, arith, subst, length, ltb, lt→ltb, every, is_some, length-append, Option-cases, ap₂,
  ==_iff, inl, inr, Bool-cases, and_iff, append_assoc, if◌then◌else◌,
}
use socket_scan_patterns.Regex.{
  Rx, empty, unit, seq, alt, star, lazy, capture, text_start, text_end, line_start, line_end, ahead,
  Place, Next, or_else, match_unit, greedy_rounds, match, search_from, exec, test,
}
use socket_scan_patterns.Regex.Notation.{word}
use socket_scan_patterns.Text.{Text}

-- The texts that a pattern reads, in front of a rest. A repetition is one of a single code unit.
abbrev pub Reads : Rx → Text → Text → Type 0
Reads empty a rest = a ≡ []
Reads (unit t) a rest = (c : ℕ) × (t c ≡ true) × (a ≡ c ∷ [])
Reads (seq r s) a rest =
    (b : Text) × (c : Text) × (a ≡ b ++ c) × Reads r b (c ++ rest) × Reads s c rest
Reads (alt r s) a rest = Reads r a rest ⊎ Reads s a rest
Reads (star r) a rest = (t : ℕ → Bool) × (r ≡ unit t) × (every t a ≡ true)
Reads text_end a rest = (a ≡ []) × (rest ≡ [])
Reads _ a rest = ⊥

-- The patterns that are covered.
abbrev pub IsPlain : Rx → Type 0
IsPlain empty = Unit
IsPlain (unit t) = Unit
IsPlain (seq r s) = IsPlain r × IsPlain s
IsPlain (alt r s) = IsPlain r × IsPlain s
IsPlain (star r) = (t : ℕ → Bool) × (r ≡ unit t)
IsPlain text_end = Unit
IsPlain _ = ⊥

-- what stands before the place behind a text, last code unit first
abbrev after : Text → Text → Text
after [] before = before
after (c ∷ cs) before = after cs (c ∷ before)

after-append : (a b before : Text) → after (a ++ b) before ≡ after b (after a before)
after-append [] b before = refl
after-append (c ∷ a) b before = after-append a b (c ∷ before)

abbrev at : Text → Text → List (ℕ × Text) → Place
at before rest captures = record { before = before; rest = rest; captures = captures }

some-or_else : (a b : Option Place) → is_some a ≡ true → is_some (or_else a b) ≡ true
some-or_else (some p) b h = refl
some-or_else none b h = cc

or_else-some : (a b : Option Place) → is_some b ≡ true → is_some (or_else a b) ≡ true
or_else-some (some p) b h = refl
or_else-some none b h = h

or_else-cases :
    (a b : Option Place) → is_some (or_else a b) ≡ true → (is_some a ≡ true) ⊎ (is_some b ≡ true)
or_else-cases (some p) b h = inl refl
or_else-cases none b h = inr h

rounds_complete :
    (t : ℕ → Bool) (a before rest : Text) (captures : List (ℕ × Text)) (k : Next) (n : ℕ)
    → every t a ≡ true
    → length a < n
    → is_some (k (at (after a before) rest captures)) ≡ true
    → is_some (greedy_rounds (match (unit t)) n (at before (a ++ rest) captures) k) ≡ true
unfolding greedy_rounds match
rounds_complete t a before rest captures k zero all room h = absurd (omega arith)
rounds_complete t [] before rest captures k (suc n) all room h = or_else-some _ _ h
rounds_complete t (c ∷ a) before rest captures k (suc n) all room h =
    let (first, others) = (and_iff (t c) (every t a)).0 all in
    some-or_else
      (match_unit t (c ∷ a ++ rest) (at before (c ∷ a ++ rest) captures) (λ q.
        if ltb (length q.rest) (suc (length (a ++ rest)))
        then greedy_rounds (match (unit t)) n q k
        else none))
      (k (at before (c ∷ a ++ rest) captures))
      (rw (first, lt→ltb (length (a ++ rest)) (suc (length (a ++ rest))) (omega arith))
        (rounds_complete t a (c ∷ before) rest captures k n others (omega arith) h))

match_complete :
    (r : Rx) (a before rest : Text) (captures : List (ℕ × Text)) (k : Next)
    → Reads r a rest
    → is_some (k (at (after a before) rest captures)) ≡ true
    → is_some (match r (at before (a ++ rest) captures) k) ≡ true
unfolding match
match_complete empty a before rest captures k e h =
    subst
      (λ (t : Text).
        is_some (k (at (after t before) rest captures)) ≡ true
        → is_some (k (at before (t ++ rest) captures)) ≡ true)
      (sym e) (λ x. x) h
match_complete (unit t) a before rest captures k (c, passes, e) h =
    subst
      (λ (u : Text).
        is_some (k (at (after u before) rest captures)) ≡ true
        → is_some (match (unit t) (at before (u ++ rest) captures) k) ≡ true)
      (sym e) (λ x. rw passes x) h
match_complete (seq r s) a before rest captures k (b, c, e, first, second) h =
    subst
      (λ (u : Text).
        is_some (k (at (after u before) rest captures)) ≡ true
        → is_some (match (seq r s) (at before (u ++ rest) captures) k) ≡ true)
      (sym e)
      (λ x. rw (append_assoc b c rest) (
        match_complete r b before (c ++ rest) captures (λ q. match s q k) first
          (match_complete s c (after b before) rest captures k second
            (rw (after-append b c before) at x))))
      h
match_complete (alt r s) a before rest captures k (inl first) h =
    some-or_else _ _ (match_complete r a before rest captures k first h)
match_complete (alt r s) a before rest captures k (inr second) h =
    or_else-some _ _ (match_complete s a before rest captures k second h)
match_complete (star r) a before rest captures k (t, e, all) h =
    subst (λ (u : Rx). is_some (match (star u) (at before (a ++ rest) captures) k) ≡ true) (sym e)
      (rounds_complete t a before rest captures k (suc (length (a ++ rest))) all
        (omega (arith, length-append a rest)) h)
match_complete (lazy r) a before rest captures k reads h = absurd reads
match_complete (capture n r) a before rest captures k reads h = absurd reads
match_complete text_start a before rest captures k reads h = absurd reads
match_complete line_start a before rest captures k reads h = absurd reads
match_complete line_end a before rest captures k reads h = absurd reads
match_complete (ahead r) a before rest captures k reads h = absurd reads
match_complete text_end a before rest captures k (e, f) h =
    subst
      (λ (u : Text).
        is_some (k (at (after u before) rest captures)) ≡ true
        → is_some (match text_end (at before (u ++ rest) captures) k) ≡ true)
      (sym e) (λ x. rw f (rw f at x)) h

-- a text that is read in front of a rest, which then goes on to a match
abbrev Read : Rx → Place → Next → Type 0
Read r p k =
    (a : Text) × (rest : Text) × (p.rest ≡ a ++ rest)
    × Reads r a rest
    × (is_some (k (at (after a p.before) rest p.captures)) ≡ true)

rounds_sound :
    (t : ℕ → Bool) (n : ℕ) (before rest : Text) (captures : List (ℕ × Text)) (k : Next)
    → is_some (greedy_rounds (match (unit t)) n (at before rest captures) k) ≡ true
    → (a : Text) × (behind : Text) × (rest ≡ a ++ behind)
      × (every t a ≡ true)
      × (is_some (k (at (after a before) behind captures)) ≡ true)
unfolding greedy_rounds match
rounds_sound t zero before rest captures k h = ([], rest, refl, refl, h)
rounds_sound t (suc n) before [] captures k h = ([], [], refl, refl, h)
rounds_sound t (suc n) before (c ∷ rest) captures k h =
    let round : Option Place = match_unit t (c ∷ rest) (at before (c ∷ rest) captures) (λ q.
      if ltb (length q.rest) (suc (length rest))
      then greedy_rounds (match (unit t)) n q k
      else none) in
    elim (or_else-cases round (k (at before (c ∷ rest) captures)) h) [
      | inr stop ↦ ([], c ∷ rest, refl, refl, stop)
      | inl more ↦ elim (Bool-cases (t c)) [
        | inr fails ↦ cc (rw fails at more)
        | inl passes ↦ elim (Bool-cases (ltb (length rest) (suc (length rest)))) [
          | inr never ↦ cc (rw (passes, never) at more)
          | inl shorter ↦
              let (a, behind, split, all, h') =
                rounds_sound t n (c ∷ before) rest captures k (rw (passes, shorter) at more) in
              (c ∷ a, behind, ap (◌∷◌ c) split, (and_iff (t c) (every t a)).1 (passes, all), h')
        ]
      ]
    ]

match_sound :
    (r : Rx) (before rest : Text) (captures : List (ℕ × Text)) (k : Next)
    → IsPlain r
    → is_some (match r (at before rest captures) k) ≡ true
    → Read r (at before rest captures) k
unfolding match
match_sound empty before rest captures k plain h = ([], rest, refl, refl, h)
match_sound (unit t) before [] captures k plain h = cc
match_sound (unit t) before (c ∷ rest) captures k plain h = elim (Bool-cases (t c)) [
  | inl e ↦ (c ∷ [], rest, refl, (c, e, refl), rw e at h)
  | inr e ↦ cc (rw e at h)
]
match_sound (seq r s) before rest captures k (first, second) h =
    let (a, middle, split, reads, h') =
      match_sound r before rest captures (λ q. match s q k) first h in
    let (b, behind, split', reads', h'') =
      match_sound s (after a before) middle captures k second h' in
    (
      a ++ b,
      behind,
      split ∙ ap (λ (t : Text). a ++ t) split' ∙ sym (append_assoc a b behind),
      (a, b, refl, subst (Reads r a) split' reads, reads'),
      rw after-append h'',
    )
match_sound (alt r s) before rest captures k (first, second) h = elim (or_else-cases _ _ h) [
  | inl one ↦
      let (a, behind, split, reads, h') = match_sound r before rest captures k first one in
      (a, behind, split, inl reads, h')
  | inr two ↦
      let (a, behind, split, reads, h') = match_sound s before rest captures k second two in
      (a, behind, split, inr reads, h')
]
match_sound (star r) before rest captures k (t, e) h =
    let (a, behind, split, all, h') =
      rounds_sound t (suc (length rest)) before rest captures k
        (subst (λ (u : Rx). is_some (match (star u) (at before rest captures) k) ≡ true) e h) in
    (a, behind, split, (t, e, all), h')
match_sound text_end before [] captures k plain h = ([], [], refl, (refl, refl), h)
match_sound text_end before (c ∷ rest) captures k plain h = cc
match_sound (lazy r) before rest captures k plain h = absurd plain
match_sound (capture n r) before rest captures k plain h = absurd plain
match_sound text_start before rest captures k plain h = absurd plain
match_sound line_start before rest captures k plain h = absurd plain
match_sound line_end before rest captures k plain h = absurd plain
match_sound (ahead r) before rest captures k plain h = absurd plain

search_from-later :
    (r : Rx) (c : ℕ) (before text : Text) → search_from (seq text_start r) (c ∷ before) text ≡ none
unfolding search_from match
search_from-later r c before [] = refl
search_from-later r c before (d ∷ text) = search_from-later r d (c ∷ before) text

test_start :
    (r : Rx) (text : Text) → test (seq text_start r) text ≡ is_some (match r (at [] text []) some)
unfolding test exec search_from match
test_start r [] = elim (Option-cases (match r (at [] [] []) some)) [
  | inl e ↦ rw e refl
  | inr (q, e) ↦ rw e refl
]
test_start r (c ∷ text) = elim (Option-cases (match r (at [] (c ∷ text) []) some)) [
  | inl e ↦ rw (e, search_from-later r c [] text) refl
  | inr (q, e) ↦ rw e refl
]

-- A test with a pattern that is anchored at the start of the text, made of units, alternatives and
-- repetitions of a unit, passes exactly if the pattern reads a first part of the text.
pub test_iff :
    (r : Rx) (text : Text)
    → IsPlain r
    → (test (seq text_start r) text ≡ true)
      ↔ ((a : Text) × (rest : Text) × (text ≡ a ++ rest) × Reads r a rest)
test_iff r text plain = (
  λ h.
      let (a, rest, split, reads, _) = match_sound r [] text [] some plain (rw test_start at h) in
      (a, rest, split, reads),
  λ (a, rest, split, reads). rw test_start (
      subst (λ (t : Text). is_some (match r (at [] t []) some) ≡ true) (sym split)
        (match_complete r a [] rest [] some reads refl)),
)

pub Reads-word : (w a rest : Text) → Reads (word w) a rest ↔ (a ≡ w)
Reads-word [] a rest = (λ e. e, λ e. e)
Reads-word (c ∷ w) a rest = (
  λ (b, d, e, (x, same, one), others).
      let tail = (Reads-word w d rest).0 others in
      e ∙ ap₂ (λ (s t : Text). s ++ t) one tail ∙ ap (λ (x : ℕ). x ∷ w) (sym ((==_iff c x).0 same)),
  λ e. (c ∷ [], w, e, (c, (==_iff c c).1 refl, refl), (Reads-word w w rest).1 refl),
)
