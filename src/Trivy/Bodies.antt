-- ===== src/Trivy/Bodies.antt =====
-- The braces of the bodies.
use socket_scan_patterns.Prelude.{
  ℕ, ◌+◌, ◌-◌, false, List, [], ◌∷◌, ◌++◌, Option, none, some, ◌≡◌, refl, All, All-append,
  Bool-cases, Option-cases, inl, inr, leb, if◌then◌else◌,
}
use socket_scan_patterns.Text.{Text, codes, join, starts_with, from_first}
use socket_scan_patterns.Text.Lines.{split_lines}
use socket_scan_patterns.Trivy.{
  occurrences, opens_body, bodies_from, split_trivy_rule_bodies, without_first, Open,
}

-- The depth after lines of which none closes the body, and `none` if one does.
abbrev pub depth_after : ℕ → List Text → Option ℕ
depth_after depth [] = some depth
depth_after depth (line ∷ lines) =
    let inside = depth_after (depth + occurrences b'{' line - occurrences b'}' line) lines in
    if leb (depth + occurrences b'{' line) (occurrences b'}' line) then none else inside

-- The body is made of lines that keep a brace open, which began as one.
abbrev pub IsBody : Text → Type 0
IsBody body =
    (lines : List Text) × (body ≡ join (codes "\n") lines)
    × ((depth : ℕ) × (depth_after 1 lines ≡ some depth))

depth_after-concat :
    (lines : List Text) (line : Text) (start depth : ℕ)
    → depth_after start lines ≡ some depth
    → leb (depth + occurrences b'{' line) (occurrences b'}' line) ≡ false
    → depth_after start (lines ++ line ∷ [])
      ≡ some (depth + occurrences b'{' line - occurrences b'}' line)
depth_after-concat [] line start depth h kept =
    let same : start ≡ depth = cc in rw (same, kept) refl
depth_after-concat (l ∷ lines) line start depth h kept =
    elim (Bool-cases (leb (start + occurrences b'{' l) (occurrences b'}' l))) [
      | inl e ↦ cc (rw e at h)
      | inr e ↦ rw e (depth_after-concat lines line _ depth (rw e at h) kept)
    ]

abbrev IsOpenBody : Open → Type 0
IsOpenBody none = Unit
IsOpenBody (some (lines, depth)) = depth_after 1 lines ≡ some depth

bodies_from-All :
    (lines bodies : List Text) (current : Open)
    → All IsBody bodies
    → IsOpenBody current
    → All IsBody (bodies_from lines bodies current)
unfolding bodies_from
bodies_from-All [] bodies current h o = h
bodies_from-All (line ∷ lines) bodies none h o = elim (Bool-cases (opens_body line)) [
  | inl e ↦ rw e (bodies_from-All lines bodies (some ([], 1)) h refl)
  | inr e ↦ elim (Bool-cases (starts_with (codes "}") line)) [
    | inl last ↦ rw (e, last) h
    | inr other ↦ rw (e, other) (bodies_from-All lines bodies none h tt)
  ]
]
bodies_from-All (line ∷ lines) bodies (some (body, depth)) h o =
    elim (Bool-cases (leb (depth + occurrences b'{' line) (occurrences b'}' line))) [
      | inl e ↦ rw e (
          bodies_from-All lines (bodies ++ join (codes "\n") body ∷ []) none
            (All-append IsBody bodies _ h ((body, refl, (depth, o)), tt)) tt)
      | inr e ↦ rw e (bodies_from-All lines bodies _ h (depth_after-concat body line 1 depth o e))
    ]

-- Every body joins lines in which the brace that opened the rule is never closed.
pub split_trivy_rule_bodies-All : (source : Text) → All IsBody (split_trivy_rule_bodies source)
unfolding split_trivy_rule_bodies
split_trivy_rule_bodies-All source =
    elim (Option-cases (from_first (codes "var builtinRules = []Rule{") source)) [
      | inl e ↦ rw (e, split_trivy_rule_bodies) tt
      | inr (region, e) ↦
          rw (e, split_trivy_rule_bodies)
            (bodies_from-All (without_first (split_lines region)) [] none tt tt)
    ]
