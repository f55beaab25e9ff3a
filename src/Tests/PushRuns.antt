-- ===== src/Tests/PushRuns.antt =====
-- push/range.mts and push/pr-commit-count.mts
use socket_scan_patterns.Json.{Number, whole, not_whole}
use socket_scan_patterns.PullRequest.Ready.{IsReady, check_pr_commit_count_iff}
use socket_scan_patterns.PullRequest.{
  OpenPr, unsigned, check_pr_commit_count, check_parsed, check_prs, check_base, check_counted,
  check_pr_commit_signatures, check_listed, check_each,
}
use socket_scan_patterns.Text.Lines.{split_lines}
use socket_scan_patterns.Canonical.Replace.{split_at_first}
use socket_scan_patterns.Prelude.{
  ℕ, ◌+◌, ◌*◌, ◌-◌, Option, All, true, false, Bool, List, [], ◌∷◌, ◌++◌, some, none, ◌≡◌, refl,
  if◌then◌else◌,
}
use socket_scan_patterns.Push.Range.{IsScanned, compute_range_iff}
use socket_scan_patterns.Push.{
  Spawned, compute_range, range_of_update, range_of_branch, range_behind_default, ref_exists,
  remote_sha_exists, is_ancestor, default_branch_of, branch_named, guessed_branch, zero_sha,
}
use socket_scan_patterns.Text.{
  Text, codes, starts_with, text_eq, trim, trim_start, trim_end, is_space, is_digit,
}

abbrev said : Bool → Text → Spawned
said b out = record { status = some (if b then 0 else 1); stdout = some out }

abbrev line_of : List Text → Text
line_of [] = []
line_of (a ∷ as') = a ++ (codes " " ++ line_of as')

-- A repository whose remote is on `trunk`; of the commits `a` and `b`, `a` alone is behind `c`.
abbrev repository : List Text → Spawned
repository args =
    if text_eq (line_of args) (codes "symbolic-ref refs/remotes/origin/HEAD ")
    then said true (codes "refs/remotes/origin/trunk\n")
    else if text_eq (line_of args) (codes "merge-base --is-ancestor b c ")
    then said false []
    else said true []

fast_forward_run :
    compute_range repository (codes "origin") (codes "refs/heads/x") (codes "c") (codes "a")
    ≡ some (codes "a..c")
unfolding compute_range range_of_update range_of_branch range_behind_default ref_exists
    remote_sha_exists is_ancestor starts_with text_eq
fast_forward_run = refl

forced_run :
    compute_range repository (codes "origin") (codes "refs/heads/x") (codes "c") (codes "b")
    ≡ some (codes "origin/trunk..c")
unfolding compute_range range_of_update range_of_branch range_behind_default ref_exists
    remote_sha_exists is_ancestor starts_with text_eq default_branch_of branch_named guessed_branch
    trim trim_start trim_end is_space split_at_first
forced_run = refl

tag_run :
    compute_range repository (codes "origin") (codes "refs/tags/v1") (codes "c") zero_sha ≡ none
unfolding compute_range starts_with
tag_run = refl

compute_range_iff_example :
    IsScanned repository
      (codes "origin")
      (codes "refs/heads/x")
      (codes "c")
      (codes "b")
      (codes "origin/trunk..c")
compute_range_iff_example =
    (compute_range_iff repository (codes "origin") (codes "refs/heads/x") (codes "c") (codes "b")
        (codes "origin/trunk..c")).0
      forced_run

abbrev prs : List OpenPr
prs = record { base_ref_name = some (codes "main"); head_ref_name = some (codes "x") } ∷ []

abbrev digits : ℕ → Text → Number
digits n [] = whole n
digits n (c ∷ cs) =
    let rest = digits (n * 10 + (c - b'0')) cs in if is_digit c then rest else not_whole

abbrev parse_prs : Text → Option (List OpenPr)
parse_prs text = if text_eq text (codes "[one]") then some prs else none

-- Two commits above `main`; git verifies the first, and the second as `second` says.
abbrev processes : Bool → Text → List Text → Spawned
processes second command args =
    if text_eq command (codes "gh")
    then said true (codes "[one]")
    else if text_eq (line_of args) (codes "rev-list --count origin/main..c ")
    then said true (codes "2\n")
    else if text_eq (line_of args) (codes "rev-list --reverse origin/main..c ")
    then said true (codes "b\nc\n")
    else if text_eq (line_of args) (codes "verify-commit c ")
    then said second []
    else said true []

unsigned_run :
    check_pr_commit_count
      (processes false)
      (digits 0)
      parse_prs
      (codes "origin")
      (codes "c")
      (codes "refs/heads/x")
    ≡ some (unsigned (codes "x") (codes "c"))
unfolding check_pr_commit_count check_parsed check_prs check_base check_counted
    check_pr_commit_signatures check_listed check_each starts_with text_eq split_lines trim
    trim_start trim_end is_space
unsigned_run = refl

signed_run :
    check_pr_commit_count
      (processes true)
      (digits 0)
      parse_prs
      (codes "origin")
      (codes "c")
      (codes "refs/heads/x")
    ≡ none
unfolding check_pr_commit_count check_parsed check_prs check_base check_counted
    check_pr_commit_signatures check_listed check_each starts_with text_eq split_lines trim
    trim_start trim_end is_space
signed_run = refl

check_pr_commit_count_iff_example :
    All (IsReady (processes true) (digits 0) (codes "origin") (codes "c") (codes "x")) prs
unfolding starts_with text_eq
check_pr_commit_count_iff_example =
    (check_pr_commit_count_iff (processes true) (digits 0) parse_prs (codes "origin") (codes "c")
        (codes "refs/heads/x") prs refl refl refl refl).0
      signed_run
