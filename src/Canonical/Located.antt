-- ===== src/Canonical/Located.antt =====
-- Where a run is replaced.
use socket_scan_patterns.Canonical.Hunk.{ReplacementRun}
use socket_scan_patterns.Canonical.Replace.{
  split_at_first, is_empty, inside_line, replace_at, replace_unique_run,
}
use socket_scan_patterns.Canonical.{behind_guard, or_false}
use socket_scan_patterns.Prelude.{
  ℕ, Bool, true, false, not, ◌&&◌, ◌||◌, [], ◌∷◌, ◌++◌, some, ◌≡◌, ◌⊎◌, refl, sym, ap, ◌∙◌, arith,
  length, drop, Bool-cases, inl, inr, some_injective, subst, Option-cases, then_option-some,
}
use socket_scan_patterns.Text.{Text, includes, starts_with, ends_with}

-- The run stands once in the text, from a line's begin on and to a line's end.
pub record IsReplaced (text : Text) (run : ReplacementRun) (next : Text) : Type 0 where
  pub before : Text
  pub behind : Text
  pub found : text ≡ before ++ (run.before ++ behind)
  pub replaced : next ≡ before ++ (run.after ++ behind)
  pub line_begins : inside_line before ≡ false
  pub line_ends : (ends_with (b'\n' ∷ []) run.before ≡ true) ⊎ (behind ≡ [])
  pub only : (p q : Text) → text ≡ p ++ (run.before ++ q) → p ≡ before

starts_with-append : (p q : Text) → starts_with p (p ++ q) ≡ true
unfolding starts_with
starts_with-append [] q = refl
starts_with-append (c ∷ cs) q = ground (arith, starts_with-append cs q)

starts_with-eq : (p s : Text) → starts_with p s ≡ true → s ≡ p ++ drop (length p) s
unfolding starts_with
starts_with-eq [] s h = refl
starts_with-eq (p ∷ ps) [] h = cc
starts_with-eq (p ∷ ps) (c ∷ cs) h = ground (arith, starts_with-eq ps cs)

includes-starts : (w t : Text) → starts_with w t ≡ true → includes w t ≡ true
unfolding includes
includes-starts w [] h = h
includes-starts w (c ∷ cs) h = rw h refl

includes-append : (w p q : Text) → includes w (p ++ (w ++ q)) ≡ true
unfolding includes
includes-append w [] q = includes-starts w (w ++ q) (starts_with-append w q)
includes-append w (c ∷ p) q = elim (Bool-cases (starts_with w (c ∷ (p ++ (w ++ q))))) [
  | inl e ↦ rw e refl
  | inr e ↦ rw (e, includes-append w p q) refl
]

tails_eq : {c d : ℕ} {s t : Text} → c ∷ s ≡ d ∷ t → s ≡ t
tails_eq h = cc

-- a place other than the first code unit stands behind it
place_behind :
    (w cs : Text) (c : ℕ) (p q : Text) → c ∷ cs ≡ p ++ (w ++ q) → (p ≡ []) ⊎ (includes w cs ≡ true)
place_behind w cs c [] q h = inl refl
place_behind w cs c (d ∷ p) q h =
    inr (subst (λ (t : Text). includes w t ≡ true) (sym (tails_eq h)) (includes-append w p q))

place_nil : (p t : Text) → [] ≡ p ++ t → p ≡ []
place_nil [] t h = refl
place_nil (d ∷ p) t h = cc

-- where the text does not start with it, all places are behind the first code unit
place_later :
    (w cs : Text) (c : ℕ) (before : Text) (Other : Type 0)
    → starts_with w (c ∷ cs) ≡ false
    → ((p q : Text) → cs ≡ p ++ (w ++ q) → (p ≡ before) ⊎ Other)
    → (p q : Text) → c ∷ cs ≡ p ++ (w ++ q)
    → (p ≡ c ∷ before) ⊎ Other
place_later w cs c before Other e ih [] q h =
    absurd (cc (sym e ∙ ap (λ (t : Text). starts_with w t) h ∙ starts_with-append w q))
place_later w cs c before Other e ih (d ∷ p) q h = elim (ih p q (tails_eq h)) [
  | inl same ↦ inl (cc)
  | inr other ↦ inr other
]

-- What a search found: the first place, what stands before it and from there on.
abbrev IsFirst : Text → Text → Text → Text → Type 0
IsFirst w text before rest =
    (text ≡ before ++ rest)
    × (starts_with w rest ≡ true)
    × ((p q : Text) → text ≡ p ++ (w ++ q) → (p ≡ before) ⊎ (includes w (drop 1 rest) ≡ true))

split_at_first-IsFirst :
    (w text before rest : Text)
    → split_at_first w text ≡ some (before, rest)
    → IsFirst w text before rest
unfolding split_at_first
split_at_first-IsFirst w [] before rest h = elim (Bool-cases (starts_with w [])) [
  | inl e ↦
      subst (λ (t : Text × Text). IsFirst w [] t.0 t.1) (some_injective (rw e at h))
        (refl, e, λ p q k. inl (place_nil p (w ++ q) k))
  | inr e ↦ cc (rw e at h)
]
split_at_first-IsFirst w (c ∷ cs) before rest h = elim (Bool-cases (starts_with w (c ∷ cs))) [
  | inl e ↦
      subst (λ (t : Text × Text). IsFirst w (c ∷ cs) t.0 t.1) (some_injective (rw e at h))
        (refl, e, place_behind w cs c)
  | inr e ↦ elim (Option-cases (split_at_first w cs)) [
    | inl none_of ↦ cc (rw (e, none_of) at h)
    | inr ((before', rest'), later) ↦
        let (same, starts, places) = split_at_first-IsFirst w cs before' rest' later in
        subst (λ (t : Text × Text). IsFirst w (c ∷ cs) t.0 t.1)
          (some_injective (rw (e, later) at h))
          (ap (λ (t : Text). c ∷ t) same, starts, place_later w cs c before' _ e places)
  ]
]

ends_or_empty :
    (ends : Bool) (behind : Text)
    → (not ends && not (is_empty behind)) ≡ false
    → (ends ≡ true) ⊎ (behind ≡ [])
ends_or_empty true behind h = inl refl
ends_or_empty false [] h = inr refl
ends_or_empty false (c ∷ cs) h = cc

replace_at-IsReplaced :
    (text next before rest : Text) (run : ReplacementRun)
    → IsFirst run.before text before rest
    → replace_at run before rest ≡ some next
    → IsReplaced text run next
unfolding replace_at
replace_at-IsReplaced text next before rest run (same, starts, places) made =
    let behind = drop (length run.before) rest in
    let twice = includes run.before (drop 1 rest) in
    let cut = not (ends_with (b'\n' ∷ []) run.before) && not (is_empty behind) in
    let (refused, out) =
      behind_guard (inside_line before || twice || cut) (some (before ++ (run.after ++ behind)))
        made in
    let (others, ends) = or_false (inside_line before || twice) cut refused in
    let (line, once) = or_false (inside_line before) twice others in
    record {
      before = before;
      behind = behind;
      found = same ∙ ap (λ (t : Text). before ++ t) (starts_with-eq run.before rest starts);
      replaced = sym (some_injective out);
      line_begins = line;
      line_ends = ends_or_empty (ends_with (b'\n' ∷ []) run.before) behind ends;
      only = λ p q k. elim (places p q k) [ inl e ↦ e | inr i ↦ cc ];
    }

-- x
pub replace_unique_run-IsReplaced :
    (text next : Text) (run : ReplacementRun)
    → replace_unique_run text run ≡ some next
    → IsReplaced text run next
unfolding replace_unique_run
replace_unique_run-IsReplaced text next run h =
    let ((before, rest), found, made) = then_option-some (split_at_first run.before text) _ h in
    replace_at-IsReplaced text next before rest run
      (split_at_first-IsFirst run.before text before rest found) made
