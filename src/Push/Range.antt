-- ===== src/Push/Range.antt =====
-- Which commits a push is scanned for.
use socket_scan_patterns.Prelude.{
  true, false, some, ◌≡◌, ◌≢◌, ◌↔◌, refl, sym, ap, ◌∙◌, List, Bool-cases, inl, inr, some_injective,
}
use socket_scan_patterns.Push.{
  Spawned, zero_sha, base_ref, range_from, ref_exists, remote_sha_exists, is_ancestor,
  range_behind_default, range_of_branch, range_of_update, compute_range,
}
use socket_scan_patterns.Text.Equality.{text_eq_iff}
use socket_scan_patterns.Text.{Text, codes, starts_with, text_eq}

module _ (spawn : List Text → Spawned) (remote local_sha remote_sha : Text) where
  -- The remote has the branch, and the push only adds to it.
  pub record IsFastForward : Type 0 where
    pub has_branch : remote_sha ≢ zero_sha
    pub exists : remote_sha_exists spawn remote_sha ≡ true
    pub ancestor : is_ancestor spawn remote_sha local_sha ≡ true

  -- The commit behind which a push is scanned.
  pub data Base : Text → Type 0 where
    at_remote : IsFastForward → Base remote_sha
    at_default :
        ¬ IsFastForward
        → ref_exists spawn (base_ref spawn remote) ≡ true
        → Base (base_ref spawn remote)

-- A push of a branch, and the range from its base up to its tip.
pub record IsScanned (spawn : List Text → Spawned)
    (remote local_ref local_sha remote_sha range : Text) : Type 0 where
  pub not_tag : starts_with (codes "refs/tags/") local_ref ≡ false
  pub not_deleted : local_sha ≢ zero_sha
  pub base : Text
  pub is_base : Base spawn remote local_sha remote_sha base
  pub range_is : range ≡ range_from base local_sha

text_neq : (a b : Text) → a ≢ b → text_eq a b ≡ false
text_neq a b h = elim (Bool-cases (text_eq a b)) [
  | inl e ↦ absurd (h ((text_eq_iff a b).0 e))
  | inr e ↦ e
]

text_neq-of : (a b : Text) → text_eq a b ≡ false → a ≢ b
text_neq-of a b h e = cc ((text_eq_iff a b).1 e)

module _ (spawn : List Text → Spawned) (remote local_sha remote_sha : Text) where
  -- a base that stands at the start of a range
  abbrev HasBase : Text → Type 0
  HasBase range =
      (base : Text) × Base spawn remote local_sha remote_sha base
      × (range ≡ range_from base local_sha)

  behind_default-HasBase :
      (range : Text)
      → ¬ IsFastForward spawn remote local_sha remote_sha
      → range_behind_default spawn remote local_sha ≡ some range
      → HasBase range
  unfolding range_behind_default
  behind_default-HasBase range other h =
      elim (Bool-cases (ref_exists spawn (base_ref spawn remote))) [
        | inl e ↦ (base_ref spawn remote, at_default other e, sym (some_injective (rw e at h)))
        | inr e ↦ cc (rw e at h)
      ]

  branch-HasBase :
      (range : Text)
      → text_eq remote_sha zero_sha ≡ false
      → range_of_branch spawn remote local_sha remote_sha ≡ some range
      → HasBase range
  unfolding range_of_branch
  branch-HasBase range given h = elim (Bool-cases (remote_sha_exists spawn remote_sha)) [
    | inr e ↦ behind_default-HasBase range (λ f. cc (f.exists)) (rw e at h)
    | inl e ↦ elim (Bool-cases (is_ancestor spawn remote_sha local_sha)) [
      | inr a ↦ behind_default-HasBase range (λ f. cc (f.ancestor)) (rw (e, a) at h)
      | inl a ↦ (
        remote_sha,
        at_remote (record {
          has_branch = text_neq-of remote_sha zero_sha given;
          exists = e;
          ancestor = a;
        }),
        sym (some_injective (rw (e, a) at h)),
      )
    ]
  ]

  update-HasBase :
      (range : Text)
      → range_of_update spawn remote local_sha remote_sha ≡ some range
      → HasBase range
  unfolding range_of_update
  update-HasBase range h = elim (Bool-cases (text_eq remote_sha zero_sha)) [
    | inl e ↦
        behind_default-HasBase range (λ f. f.has_branch ((text_eq_iff remote_sha zero_sha).0 e))
          (rw e at h)
    | inr e ↦ branch-HasBase range e (rw e at h)
  ]

  Base-branch :
      (base : Text)
      → text_eq remote_sha zero_sha ≡ false
      → Base spawn remote local_sha remote_sha base
      → range_of_branch spawn remote local_sha remote_sha ≡ some (range_from base local_sha)
  unfolding range_of_branch range_behind_default
  Base-branch base given (at_remote f) = rw (f.exists, f.ancestor) refl
  Base-branch base given (at_default other found) =
      elim (Bool-cases (remote_sha_exists spawn remote_sha)) [
        | inr e ↦ rw (e, found) refl
        | inl e ↦ elim (Bool-cases (is_ancestor spawn remote_sha local_sha)) [
          | inr a ↦ rw (e, a, found) refl
          | inl a ↦ absurd (
              other (record {
                has_branch = text_neq-of remote_sha zero_sha given;
                exists = e;
                ancestor = a;
              }))
        ]
      ]

  Base-default :
      (base : Text)
      → text_eq remote_sha zero_sha ≡ true
      → Base spawn remote local_sha remote_sha base
      → range_behind_default spawn remote local_sha ≡ some (range_from base local_sha)
  unfolding range_behind_default
  Base-default base new (at_remote f) =
      absurd (f.has_branch ((text_eq_iff remote_sha zero_sha).0 new))
  Base-default base new (at_default other found) = rw found refl

  Base-update :
      (base : Text)
      → Base spawn remote local_sha remote_sha base
      → range_of_update spawn remote local_sha remote_sha ≡ some (range_from base local_sha)
  unfolding range_of_update
  Base-update base is_base = elim (Bool-cases (text_eq remote_sha zero_sha)) [
    | inr e ↦ rw e (Base-branch base e is_base)
    | inl e ↦ rw e (Base-default base e is_base)
  ]

-- A range is given exactly for a push of a branch that does not delete it: it ends at the pushed
-- commit, and starts at the commit that the remote has, where the push only adds to it, and at the
-- default branch of the remote, which must exist, in every other case.
pub compute_range_iff :
    (spawn : List Text → Spawned) (remote local_ref local_sha remote_sha range : Text)
    → (compute_range spawn remote local_ref local_sha remote_sha ≡ some range)
      ↔ IsScanned spawn remote local_ref local_sha remote_sha range
unfolding compute_range
compute_range_iff spawn remote local_ref local_sha remote_sha range = (
  λ h. elim (Bool-cases (starts_with (codes "refs/tags/") local_ref)) [
    | inl t ↦ cc (rw t at h)
    | inr t ↦ elim (Bool-cases (text_eq local_sha zero_sha)) [
      | inl d ↦ cc (rw (t, d) at h)
      | inr d ↦
          let (base, is_base, range_is) =
            update-HasBase spawn remote local_sha remote_sha range (rw (t, d) at h) in
          record {
            not_tag = t;
            not_deleted = text_neq-of local_sha zero_sha d;
            base = base;
            is_base = is_base;
            range_is = range_is;
          }
    ]
  ],
  λ s.
      rw (s.not_tag, text_neq local_sha zero_sha s.not_deleted)
        (Base-update spawn remote local_sha remote_sha s.base s.is_base ∙ ap some (sym s.range_is)),
)
