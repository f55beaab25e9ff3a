-- ===== src/NpmScan/Receipt/Binding.antt =====
-- When a scan is bound to the source that a publish run reserved.
use socket_scan_patterns.Failure.{ok, bind-eq-ok, passed}
use socket_scan_patterns.NpmScan.Receipt.Source.{
  NpmPublishSourceEvidence, EvidenceKind, committed, prepared, resumed, SourceBinding, is_hex,
  is_sha, is_any_case_sha, is_only_parent, is_reserved, is_fetched, check_binding, tied_by,
  verify_npm_prepared_source_binding, parse_npm_publish_source_evidence,
  verify_npm_scan_source_binding,
}
use socket_scan_patterns.Prelude.{
  ℕ, Bool, true, false, ◌&&◌, List, [], ◌∷◌, ◌≡◌, ◌↔◌, inl, inr, refl, ap, Bool-cases, and_iff,
  every,
}
use socket_scan_patterns.Text.Equality.{text_eq_iff}
use socket_scan_patterns.Text.{Text, starts_with, text_eq}

-- How the evidence ties the source commit to the head of the run.
pub data Tie (b : SourceBinding) : EvidenceKind → Type 0 where
  -- the run published its own head
  same_prepared : b.source_sha ≡ b.run_head → Tie b prepared
  same_committed : b.source_sha ≡ b.run_head → Tie b committed
  same_resumed : b.source_sha ≡ b.run_head → Tie b resumed
  -- the run resumed a reservation that its logs name
  reserved : is_reserved b.source_sha b.logs ≡ true → Tie b resumed
  -- the run bumped its head, and the logs show the fetch of the bump
  bumped : b.parents ≡ b.run_head ∷ [] → is_fetched b.source_sha b.logs ≡ true → Tie b committed

-- Full hashes, and a source commit that the evidence abbreviates and ties to the head.
pub record IsBound (b : SourceBinding) (evidence : NpmPublishSourceEvidence) : Type 0 where
  pub source_is_sha : is_sha b.source_sha ≡ true
  pub head_is_sha : is_sha b.run_head ≡ true
  pub abbreviated : starts_with evidence.prefix b.source_sha ≡ true
  pub tie : Tie b evidence.kind

only_parent_iff :
    (head : Text) (parents : List Text)
    → (is_only_parent head parents ≡ true) ↔ (parents ≡ head ∷ [])
only_parent_iff head (parent ∷ []) = (
  λ h. ap (λ (p : Text). p ∷ []) ((text_eq_iff parent head).0 h),
  λ e. (text_eq_iff parent head).1 (cc),
)
only_parent_iff head [] = (λ h. cc, λ e. cc)
only_parent_iff head (p ∷ q ∷ more) = (λ h. cc, λ e. cc)

every-weaken :
    (p q : ℕ → Bool)
    → ((c : ℕ) → p c ≡ true → q c ≡ true)
    → (t : Text) → every p t ≡ true
    → every q t ≡ true
every-weaken p q h [] e = refl
every-weaken p q h (c ∷ t) e =
    let (first, rest) = (and_iff _ _).0 e in (and_iff _ _).1 (h c first, every-weaken p q h t rest)

is_sha-any_case : (t : Text) → is_sha t ≡ true → is_any_case_sha t ≡ true
is_sha-any_case t h =
    let (letters, size) = (and_iff _ _).0 h in
    (and_iff _ _).1 (every-weaken is_hex _ (λ c is. rw is refl) t letters, size)

prepared_iff :
    (source head : Text)
    → is_sha source ≡ true
    → (verify_npm_prepared_source_binding source head ≡ ok tt) ↔ (source ≡ head)
unfolding verify_npm_prepared_source_binding
prepared_iff source head sha =
    let full = is_sha-any_case source sha in
    elim (Bool-cases (text_eq source head)) [
      | inl e ↦ (λ h. (text_eq_iff source head).0 e, λ same. rw (full, e) refl)
      | inr e ↦ (λ h. cc (rw (full, e) at h), λ same. cc ((text_eq_iff source head).1 same))
    ]

Tie-prepared : {b : SourceBinding} → Tie b prepared → b.source_sha ≡ b.run_head
Tie-prepared (same_prepared e) = e

Tie-committed :
    (b : SourceBinding)
    → Tie b committed
    → text_eq b.source_sha b.run_head ≡ false
    → (is_only_parent b.run_head b.parents && is_fetched b.source_sha b.logs) ≡ true
Tie-committed b (same_committed e) h = cc ((text_eq_iff b.source_sha b.run_head).1 e)
Tie-committed b (bumped only found) h =
    (and_iff _ _).1 ((only_parent_iff b.run_head b.parents).1 only, found)

Tie-resumed :
    (b : SourceBinding)
    → Tie b resumed
    → text_eq b.source_sha b.run_head ≡ false
    → is_reserved b.source_sha b.logs ≡ true
Tie-resumed b (same_resumed e) h = cc ((text_eq_iff b.source_sha b.run_head).1 e)
Tie-resumed b (reserved found) h = found

committed-Tie :
    (b : SourceBinding)
    → (is_only_parent b.run_head b.parents && is_fetched b.source_sha b.logs) ≡ true
    → Tie b committed
committed-Tie b h =
    let (only, found) = (and_iff _ _).0 h in
    bumped ((only_parent_iff b.run_head b.parents).0 only) found

-- the decision behind the hashes
tied_by_iff :
    (b : SourceBinding) (kind : EvidenceKind)
    → is_sha b.source_sha ≡ true
    → (tied_by b kind ≡ ok tt) ↔ Tie b kind
unfolding tied_by
tied_by_iff b prepared sha =
    let same = prepared_iff b.source_sha b.run_head sha in
    (λ h. same_prepared (same.0 h), λ t. same.1 (Tie-prepared t))
tied_by_iff b committed sha = elim (Bool-cases (text_eq b.source_sha b.run_head)) [
  | inl e ↦ (λ h. same_committed ((text_eq_iff _ _).0 e), λ t. rw e refl)
  | inr e ↦ (λ h. committed-Tie b (passed _ _ (rw e at h)), λ t. rw (e, Tie-committed b t e) refl)
]
tied_by_iff b resumed sha = elim (Bool-cases (text_eq b.source_sha b.run_head)) [
  | inl e ↦ (λ h. same_resumed ((text_eq_iff _ _).0 e), λ t. rw e refl)
  | inr e ↦ (λ h. reserved (passed _ _ (rw e at h)), λ t. rw (e, Tie-resumed b t e) refl)
]

check_binding_iff :
    (b : SourceBinding) (evidence : NpmPublishSourceEvidence)
    → (check_binding b evidence ≡ ok tt) ↔ IsBound b evidence
unfolding check_binding
check_binding_iff b evidence = elim (Bool-cases (is_sha b.source_sha)) [
  | inl source ↦ elim (Bool-cases (is_sha b.run_head)) [
    | inl head ↦ elim (Bool-cases (starts_with evidence.prefix b.source_sha)) [
      | inl begins ↦ (
        λ h. record {
          source_is_sha = source;
          head_is_sha = head;
          abbreviated = begins;
          tie = (tied_by_iff b evidence.kind source).0 (rw (source, head, begins) at h);
        },
        λ bound. rw (source, head, begins) ((tied_by_iff b evidence.kind source).1 bound.tie),
      )
      | inr lacks ↦ (λ h. cc (rw (source, head, lacks) at h), λ bound. cc bound.abbreviated)
    ]
    | inr lacks ↦ (λ h. cc (rw (source, lacks) at h), λ bound. cc bound.head_is_sha)
  ]
  | inr lacks ↦ (λ h. cc (rw lacks at h), λ bound. cc bound.source_is_sha)
]

-- A scan is accepted exactly where the logs give one evidence, both commits are full hashes, the
-- source begins with the evidence's prefix, and the evidence ties it to the head of the run: they
-- are the same commit; or, for a resumed run, the logs name the source as reserved; or, for a
-- committed one, the head is its only parent and the logs show its fetch.
pub verify_npm_scan_source_binding_iff :
    (b : SourceBinding)
    → (verify_npm_scan_source_binding b ≡ ok tt) ↔ (
        (evidence : NpmPublishSourceEvidence) × (parse_npm_publish_source_evidence b.logs b.version
          ≡ ok evidence)
        × IsBound b evidence)
unfolding verify_npm_scan_source_binding
verify_npm_scan_source_binding_iff b = (
  λ h.
      let (evidence, found, bound) =
        bind-eq-ok (parse_npm_publish_source_evidence b.logs b.version) _ h in
      (evidence, found, (check_binding_iff b evidence).0 bound),
  λ (evidence, found, bound). rw found ((check_binding_iff b evidence).1 bound),
)
