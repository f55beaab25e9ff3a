-- ===== src/PullRequest/Ready.antt =====
-- When the check of the open pull requests has nothing to report.
use socket_scan_patterns.Json.{Number, whole, minus, not_whole, max_safe_integer}
use socket_scan_patterns.Prelude.{
  ℕ, ◌≤◌, ◌<◌, Bool, true, false, not, ◌||◌, List, [], ◌∷◌, Option, none, some, ◌==◌, leb, ltb, ◌≡◌,
  ◌≢◌, ◌↔◌, refl, ap, sym, subst, some_injective, arith, length, some_of, All, Bool-cases, inl, inr,
  ==_iff, ltb→lt, leb→le, lt→ltb, le→leb,
}
use socket_scan_patterns.Push.{Spawned, is_success, text_or_empty}
use socket_scan_patterns.PullRequest.{
  OpenPr, Report, or_later, is_empty, is_zeros, is_verified, string_of, base_named, check_each,
  list_commits, shas_of, check_listed, check_pr_commit_signatures, check_counted, count_commits,
  check_base, check_prs, check_parsed, list_prs, branch_of, check_pr_commit_count,
}
use socket_scan_patterns.Text.Equality.{text_eq_iff}
use socket_scan_patterns.Text.{Text, codes, starts_with, text_eq, trim}

module _ (spawn : Text → List Text → Spawned) where
  -- Git lists as many commits as it counted, and each has a signature that it verifies.
  pub record IsSigned (commits : ℕ) (listed : Spawned) : Type 0 where
    pub is_listed : is_success listed.status ≡ true
    pub size : length (shas_of listed) ≡ commits
    pub no_gaps : some_of is_empty (shas_of listed) ≡ false
    pub verified : All (λ sha. is_verified spawn sha ≡ true) (shas_of listed)

  check_each_iff :
      (branch : Text) (shas : List Text)
      → (check_each spawn branch shas ≡ none) ↔ All (λ sha. is_verified spawn sha ≡ true) shas
  unfolding check_each
  check_each_iff branch [] = (λ h. tt, λ a. refl)
  check_each_iff branch (sha ∷ shas) = elim (Bool-cases (is_verified spawn sha)) [
    | inl e ↦ (
      λ h. (e, (check_each_iff branch shas).0 (rw e at h)),
      λ (v, a). rw e ((check_each_iff branch shas).1 a),
    )
    | inr e ↦ (λ h. cc (rw e at h), λ (v, a). cc)
  ]

  check_listed_iff :
      (remote branch : Text) (commits : ℕ) (listed : Spawned)
      → (check_listed spawn remote branch commits listed ≡ none) ↔ IsSigned commits listed
  unfolding check_listed
  check_listed_iff remote branch commits listed = elim (Bool-cases (is_success listed.status)) [
    | inr e ↦ (λ h. cc (rw e at h), λ s. cc (s.is_listed))
    | inl e ↦ elim (Bool-cases (length (shas_of listed) == commits)) [
      | inr k ↦ (λ h. cc (rw (e, k) at h), λ s. cc ((==_iff _ _).1 (s.size)))
      | inl k ↦ elim (Bool-cases (some_of is_empty (shas_of listed))) [
        | inl g ↦ (λ h. cc (rw (e, k, g) at h), λ s. cc (s.no_gaps))
        | inr g ↦ (
          λ h. record {
            is_listed = e;
            size = (==_iff _ _).0 k;
            no_gaps = g;
            verified = (check_each_iff branch _).0 (rw (e, k, g) at h);
          },
          λ s. rw (e, k, g) ((check_each_iff branch _).1 (s.verified)),
        )
      ]
    ]
  ]

  signatures_iff :
      (remote base local_sha branch : Text) (commits : ℕ)
      → (check_pr_commit_signatures spawn remote base local_sha branch commits ≡ none)
        ↔ (1 < commits → IsSigned commits (list_commits spawn remote base local_sha))
  unfolding check_pr_commit_signatures
  signatures_iff remote base local_sha branch commits = elim (Bool-cases (ltb 1 commits)) [
    | inl e ↦ (
      λ h more. (check_listed_iff remote branch commits _).0 (rw e at h),
      λ s. rw e ((check_listed_iff remote branch commits _).1 (s (ltb→lt 1 commits e))),
    )
    | inr e ↦ (λ h more. cc (lt→ltb 1 commits more), λ s. rw e refl)
  ]

  -- Git counts the commits above a base: at least one, and all of them signed if there are more.
  pub record IsCounted (to_number : Text → Number) (remote local_sha base : Text) : Type 0 where
    pub commits : ℕ
    pub is_counted : is_success (count_commits spawn remote base local_sha).status ≡ true
    pub count_is :
        to_number (trim (text_or_empty (count_commits spawn remote base local_sha).stdout))
        ≡ whole commits
    pub is_safe : commits ≤ max_safe_integer
    pub at_least_one : 1 ≤ commits
    pub is_signed : 1 < commits → IsSigned commits (list_commits spawn remote base local_sha)

  check_counted-none :
      (remote base local_sha branch : Text) (counted : Bool) (n : Number)
      → check_counted spawn remote base local_sha branch counted n ≡ none
      → (commits : ℕ) × (counted ≡ true)
        × (n ≡ whole commits)
        × (commits ≤ max_safe_integer)
        × (1 ≤ commits)
        × (1 < commits → IsSigned commits (list_commits spawn remote base local_sha))
  unfolding check_counted
  check_counted-none remote base local_sha branch false (whole commits) h = cc
  check_counted-none remote base local_sha branch true (whole commits) h =
      elim (Bool-cases (leb commits max_safe_integer)) [
        | inr e ↦ cc (rw e at h)
        | inl e ↦ elim (Bool-cases (ltb commits 1)) [
          | inl k ↦ cc (rw (e, k) at h)
          | inr k ↦ (
            commits,
            refl,
            refl,
            leb→le commits max_safe_integer e,
            ground (arith, lt→ltb commits 1),
            (signatures_iff remote base local_sha branch commits).0 (rw (e, k) at h),
          )
        ]
      ]
  check_counted-none remote base local_sha branch counted (minus commits) h =
      elim (Bool-cases (not counted || not (leb commits max_safe_integer))) [
        | inl e ↦ cc (rw e at h)
        | inr e ↦ cc (rw e at h)
      ]
  check_counted-none remote base local_sha branch counted not_whole h = cc

  check_counted-of :
      (remote base local_sha branch : Text) (commits : ℕ)
      → commits ≤ max_safe_integer
      → 1 ≤ commits
      → (1 < commits → IsSigned commits (list_commits spawn remote base local_sha))
      → check_counted spawn remote base local_sha branch true (whole commits) ≡ none
  unfolding check_counted
  check_counted-of remote base local_sha branch commits safe positive signed =
      elim (Bool-cases (ltb commits 1)) [
        | inl e ↦ absurd (omega (arith, ltb→lt commits 1 e, positive))
        | inr e ↦
            rw (le→leb commits max_safe_integer safe, e)
              ((signatures_iff remote base local_sha branch commits).1 signed)
      ]

  module _ (to_number : Text → Number) (remote local_sha branch : Text) where
    check_base_iff :
        (base : Text)
        → (check_base spawn to_number remote local_sha branch (some base) ≡ none)
          ↔ IsCounted to_number remote local_sha base
    unfolding check_base
    check_base_iff base = (
      λ h.
          let (commits, counted, is, safe, positive, signed) =
            check_counted-none remote base local_sha branch _ _ h in
          record {
            commits = commits;
            is_counted = counted;
            count_is = is;
            is_safe = safe;
            at_least_one = positive;
            is_signed = signed;
          },
      λ c.
          rw (c.is_counted, c.count_is)
            (check_counted-of remote base local_sha branch c.commits c.is_safe c.at_least_one
              c.is_signed),
    )

    -- a pull request that, if it is of the branch and has a base, is ready above it
    abbrev Ready : Option Text → Option Text → Type 0
    Ready base_name head =
        (base : Text)
        → head ≡ some branch
        → base_name ≡ some base
        → base ≢ []
        → IsCounted to_number remote local_sha base

    named_iff :
        (base head : Option Text)
        → (check_base spawn to_number remote local_sha branch (base_named branch base head) ≡ none)
          ↔ Ready base head
    unfolding check_base
    named_iff none head = (λ h b e f n. cc f, λ r. refl)
    named_iff (some []) head = (λ h b e f n. absurd (n (sym (some_injective f))), λ r. refl)
    named_iff (some (c ∷ cs)) none = (λ h b e f n. cc e, λ r. refl)
    named_iff (some (c ∷ cs)) (some head) = elim (Bool-cases (text_eq head branch)) [
      | inr e ↦
          (λ h b own f n. cc ((text_eq_iff head branch).1 (some_injective own)), λ r. rw e refl)
      | inl e ↦ (
        λ h b own f n.
            subst (IsCounted to_number remote local_sha) (some_injective f)
              ((check_base_iff (c ∷ cs)).0 (rw e at h)),
        λ r. rw e (
            (check_base_iff (c ∷ cs)).1
              (r (c ∷ cs) (ap some ((text_eq_iff head branch).0 e)) refl (λ nil. cc nil))),
      )
    ]

    -- A pull request is ready where it is of another branch or has no base, and otherwise where
    -- its commits are counted above the base.
    abbrev pub IsReady : OpenPr → Type 0
    IsReady pr = Ready pr.base_ref_name pr.head_ref_name

    later_iff :
        (first rest : Option Report)
        → (or_later first rest ≡ none) ↔ ((first ≡ none) × (rest ≡ none))
    later_iff none rest = (λ h. (refl, h), λ (e, f). f)
    later_iff (some report) rest = (λ h. cc, λ (e, f). cc)

    check_prs_iff :
        (prs : List OpenPr)
        → (check_prs spawn to_number remote local_sha branch prs ≡ none) ↔ All IsReady prs
    unfolding check_prs
    check_prs_iff [] = (λ h. tt, λ a. refl)
    check_prs_iff (pr ∷ prs) = (
      λ h.
          let (first, rest) = (later_iff _ _).0 h in
          ((named_iff _ _).0 first, (check_prs_iff prs).0 rest),
      λ (ready, all). (later_iff _ _).1 ((named_iff _ _).1 ready, (check_prs_iff prs).1 all),
    )

-- On a push to a branch that does not delete it, where gh lists the open pull requests and its
-- output parses, the check has nothing to report exactly if each pull request with the branch as
-- its head and with a base is counted above that base: at least one commit, a safe number, and, if
-- there are more, as many listed commits, each with a signature that git verifies.
pub check_pr_commit_count_iff :
    (spawn : Text → List Text → Spawned) (to_number : Text → Number)
    (parse_prs : Text → Option (List OpenPr)) (remote local_sha remote_ref : Text)
    (prs : List OpenPr)
    → starts_with (codes "refs/heads/") remote_ref ≡ true
    → is_zeros local_sha ≡ false
    → is_success (list_prs spawn (branch_of remote_ref)).status ≡ true
    → parse_prs (string_of (list_prs spawn (branch_of remote_ref)).stdout) ≡ some prs
    → (check_pr_commit_count spawn to_number parse_prs remote local_sha remote_ref ≡ none)
      ↔ All (IsReady spawn to_number remote local_sha (branch_of remote_ref)) prs
unfolding check_pr_commit_count check_parsed
check_pr_commit_count_iff spawn to_number parse_prs remote local_sha remote_ref prs heads kept
      listed parsed =
    (
      λ h.
          (check_prs_iff spawn to_number remote local_sha (branch_of remote_ref) prs).0
            (rw (heads, kept, listed, parsed) at h),
      λ a.
          rw (heads, kept, listed, parsed)
            ((check_prs_iff spawn to_number remote local_sha (branch_of remote_ref) prs).1 a),
    )
