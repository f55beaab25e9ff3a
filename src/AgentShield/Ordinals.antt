-- ===== src/AgentShield/Ordinals.antt =====
-- The ids of rows with one upstream id.
use socket_scan_patterns.AgentShield.Fields.{AgentShieldRuleMeta}
use socket_scan_patterns.AgentShield.{
  Ordinals, ordinal_of, unique_id, agent_shield_row, agent_shield_severity, push_metas,
}
use socket_scan_patterns.Failure.{ok, bind-eq-ok, ok_injective}
use socket_scan_patterns.Prelude.{
  ℕ, ◌+◌, ◌≤◌, List, [], ◌∷◌, ◌++◌, ◌==◌, ◌≡◌, ◌≢◌, refl, sym, ap, ◌∙◌, subst, arith, length,
  length-append, All, All-append, Bool-cases, inl, inr, if◌then◌else◌, ==_iff,
}
use socket_scan_patterns.Schema.{PatternRule, PatternSeverity}
use socket_scan_patterns.Text.Equality.{text_eq_iff, text_eq_refl}
use socket_scan_patterns.Text.Numbers.{number_text, number_text_injective}
use socket_scan_patterns.Text.{Text, codes, text_eq}
use socket_scan_patterns.TextSet.{put}
use socket_scan_patterns.TextSet.Laws.{get-put}
use socket_scan_patterns.Upstream.{UpstreamSlice}

append_cancel : (p s t : Text) → p ++ s ≡ p ++ t → s ≡ t
append_cancel [] s t h = h
append_cancel (c ∷ cs) s t h = append_cancel cs s t (cc)

no_suffix : (id s : Text) (c : ℕ) → id ≢ id ++ c ∷ s
no_suffix id s c h =
    let lengths : length id ≡ length (id ++ c ∷ s) = ap length h in
    omega (arith, length-append id (c ∷ s))

-- one upstream id under two ordinals is two ids
unique_id_injective : (id : Text) (n m : ℕ) → unique_id id n ≡ unique_id id m → n ≡ m
unique_id_injective id n m h = elim (Bool-cases (n == 1)) [
  | inl first ↦ elim (Bool-cases (m == 1)) [
    | inl first' ↦ (==_iff n 1).0 first ∙ sym ((==_iff m 1).0 first')
    | inr later' ↦ absurd (no_suffix id (number_text m) b'-' (rw (first, later') at h))
  ]
  | inr later ↦ elim (Bool-cases (m == 1)) [
    | inl first' ↦ absurd (no_suffix id (number_text n) b'-' (sym (rw (later, first') at h)))
    | inr later' ↦
        number_text_injective n m
          (append_cancel (codes "-") _ _ (append_cancel id _ _ (rw (later, later') at h)))
  ]
]

ordinal_of-put :
    (k j : Text) (n : ℕ) (m : Ordinals)
    → ordinal_of j (put k n m) ≡ (if text_eq k j then n else ordinal_of j m)
ordinal_of-put k j n m = elim (Bool-cases (text_eq k j)) [
  | inl e ↦ rw (get-put k j n m, e) refl
  | inr e ↦ rw (get-put k j n m, e) refl
]

-- handing out the next ordinal of an id lowers no ordinal
pub ordinal_grows :
    (k : Text) (m : Ordinals) (j : Text)
    → ordinal_of j m ≤ ordinal_of j (put k (ordinal_of k m + 1) m)
ordinal_grows k m j = elim (Bool-cases (text_eq k j)) [
  | inl e ↦
      let same : ordinal_of k m ≡ ordinal_of j m =
        ap (λ (id : Text). ordinal_of id m) ((text_eq_iff k j).0 e) in
      let next : ordinal_of j (put k (ordinal_of k m + 1) m) ≡ ordinal_of k m + 1 =
        ordinal_of-put k j _ m ∙ rw e refl in
      omega (arith, same, next)
  | inr e ↦
      let kept : ordinal_of j (put k (ordinal_of k m + 1) m) ≡ ordinal_of j m =
        ordinal_of-put k j _ m ∙ rw e refl in
      omega (arith, kept)
]

ordinal_of-next : (k : Text) (n : ℕ) (m : Ordinals) → ordinal_of k (put k n m) ≡ n
ordinal_of-next k n m = ordinal_of-put k k n m ∙ rw (text_eq_refl k) refl

-- The row has the id of an ordinal that was handed out.
unfoldable pub IsNumbered : Ordinals → PatternRule → Type 0
IsNumbered ordinals rule =
    (n : ℕ) × (rule.id ≡ codes "agentshield:" ++ unique_id rule.provenance.rule_id n)
    × (n ≤ ordinal_of rule.provenance.rule_id ordinals)

-- Rows of one upstream id have different ids.
abbrev pub Differ : PatternRule → PatternRule → Type 0
Differ r s = ¬ ((r.provenance.rule_id ≡ s.provenance.rule_id) × (r.id ≡ s.id))

abbrev pub AreApart : List PatternRule → Type 0
AreApart [] = Unit
AreApart (r ∷ rs) = All (λ s. Differ r s) rs × AreApart rs

-- What the loop keeps: ids of handed-out ordinals, apart from each other.
unfoldable pub IsOrdinal : Ordinals × List PatternRule → Type 0
IsOrdinal (ordinals, rows) = All (IsNumbered ordinals) rows × AreApart rows

pub IsNumbered-mono :
    (old new : Ordinals)
    → ((id : Text) → ordinal_of id old ≤ ordinal_of id new)
    → (rows : List PatternRule) → All (IsNumbered old) rows
    → All (IsNumbered new) rows
unfolding IsNumbered
IsNumbered-mono old new grows [] h = tt
IsNumbered-mono old new grows (r ∷ rs) ((n, same, bound), h) =
    ((n, same, omega (arith, grows r.provenance.rule_id)), IsNumbered-mono old new grows rs h)

AreApart-concat :
    (r : PatternRule) (rows : List PatternRule)
    → All (λ s. Differ s r) rows
    → AreApart rows
    → AreApart (rows ++ r ∷ [])
AreApart-concat r [] h a = (tt, tt)
AreApart-concat r (s ∷ rows) (d, h) (ds, a) =
    (All-append (λ t. Differ s t) rows (r ∷ []) ds (d, tt), AreApart-concat r rows h a)

module _ (slice : UpstreamSlice) (source_file : Text) where
  new_row_differs :
      (meta : AgentShieldRuleMeta) (severity : PatternSeverity) (ordinals : Ordinals)
      (rows : List PatternRule)
      → All (IsNumbered ordinals) rows
      → let row =
          agent_shield_row slice source_file meta (ordinal_of meta.id ordinals + 1) severity in
        All (λ s. Differ s row) rows
  unfolding IsNumbered
  new_row_differs meta severity ordinals [] h = tt
  new_row_differs meta severity ordinals (s ∷ rows) ((n, id_is, bound), h) = (
    λ (same_rule, same_id).
        let next = ordinal_of meta.id ordinals + 1 in
        let ids : codes "agentshield:" ++ unique_id meta.id n
            ≡ codes "agentshield:" ++ unique_id meta.id next =
          sym (ap (λ (id : Text). codes "agentshield:" ++ unique_id id n) same_rule)
          ∙ sym id_is
          ∙ same_id in
        let numbers : n ≡ next =
          unique_id_injective meta.id n next (append_cancel (codes "agentshield:") _ _ ids) in
        let bound' : n ≤ ordinal_of meta.id ordinals =
          subst (λ (id : Text). n ≤ ordinal_of id ordinals) same_rule bound in
        omega arith,
    new_row_differs meta severity ordinals rows h,
  )

  push_step :
      (meta : AgentShieldRuleMeta) (severity : PatternSeverity) (ordinals : Ordinals)
      (rows : List PatternRule)
      → IsOrdinal (ordinals, rows)
      → let ordinal = ordinal_of meta.id ordinals + 1 in
        IsOrdinal (
          put meta.id ordinal ordinals,
          rows ++ agent_shield_row slice source_file meta ordinal severity ∷ [],
        )
  unfolding IsOrdinal IsNumbered
  push_step meta severity ordinals rows (numbered, apart) =
      let ordinal = ordinal_of meta.id ordinals + 1 in
      let more = put meta.id ordinal ordinals in
      let row = agent_shield_row slice source_file meta ordinal severity in
      (
        All-append (IsNumbered more) rows (row ∷ [])
            (IsNumbered-mono ordinals more (ordinal_grows meta.id ordinals) rows numbered)
            ((ordinal, refl, omega (arith, ordinal_of-next meta.id ordinal ordinals)), tt),
        AreApart-concat row rows (new_row_differs meta severity ordinals rows numbered) apart,
      )

  pub push_metas-IsOrdinal :
      (metas : List AgentShieldRuleMeta) (state after : Ordinals × List PatternRule)
      → IsOrdinal state
      → push_metas slice source_file metas state ≡ ok after
      → IsOrdinal after
  unfolding push_metas
  push_metas-IsOrdinal [] state after i h = subst IsOrdinal (ok_injective h) i
  push_metas-IsOrdinal (meta ∷ metas) (ordinals, rows) after i h =
      let (severity, known, rest) = bind-eq-ok (agent_shield_severity meta.severity) _ h in
      push_metas-IsOrdinal metas _ after (push_step meta severity ordinals rows i) rest
