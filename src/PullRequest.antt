-- ===== src/PullRequest.antt =====
-- .git-hooks/_shared/push/pr-commit-count.mts: the check of the commits that a push brings to an
-- open pull request. The processes, `Number` and the parse of what `gh` prints are parameters.
pub mod Ready
use socket_scan_patterns.Json.{Number, whole, minus, not_whole, max_safe_integer}
use socket_scan_patterns.Prelude.{
  ℕ, Bool, true, false, not, ◌&&◌, ◌||◌, List, [], ◌∷◌, ◌++◌, Option, none, some, ◌==◌, leb, ltb,
  if◌then◌else◌, length, take, drop, every, some_of,
}
use socket_scan_patterns.Push.{Spawned, is_success, text_or_empty, range_from}
use socket_scan_patterns.Text.Lines.{split_lines}
use socket_scan_patterns.Text.{Text, codes, starts_with, text_eq, trim}

-- `OpenPr`
pub record OpenPr : Type 0 where
  pub base_ref_name : Option Text
  pub head_ref_name : Option Text

-- The texts that the checks return, with the parts that vary.
pub data Report : Type 0 where
  cannot_list : Text → Text → Report
  unsigned : Text → Text → Report
  cannot_count : Text → Text → Text → Report
  too_few_commits : Text → Text → Number → Report

abbrev pub is_empty : Text → Bool
is_empty [] = true
is_empty (c ∷ cs) = false

-- `String(stdout)` of what a process printed
abbrev pub string_of : Option Text → Text
string_of none = codes "null"
string_of (some out) = out

-- `/^0+$/u.test(sha)`
abbrev pub is_zeros : Text → Bool
is_zeros sha = not (is_empty sha) && every (λ c. c == b'0') sha

-- the base of a pull request whose head is the branch, where it has one
abbrev pub base_named : Text → Option Text → Option Text → Option Text
base_named branch (some (c ∷ cs)) (some head) =
    if not (text_eq head branch) then none else some (c ∷ cs)
base_named branch (some (c ∷ cs)) none = none
base_named branch (some []) head = none
base_named branch none head = none

abbrev pub base_of : Text → OpenPr → Option Text
base_of branch pr = base_named branch pr.base_ref_name pr.head_ref_name

-- the first report
abbrev pub or_later : Option Report → Option Report → Option Report
or_later none rest = rest
or_later (some report) rest = some report

-- `shas`
abbrev pub shas_of : Spawned → List Text
shas_of listed = split_lines (trim (text_or_empty listed.stdout))

-- `branch`
abbrev pub branch_of : Text → Text
branch_of remote_ref = drop (length (codes "refs/heads/")) remote_ref

module _ (spawn : Text → List Text → Spawned) where
  abbrev pub is_verified : Text → Bool
  is_verified sha = is_success (spawn (codes "git") (codes "verify-commit" ∷ sha ∷ [])).status

  -- the loop over the commits
  unfoldable pub check_each : Text → List Text → Option Report
  check_each branch [] = none
  check_each branch (sha ∷ shas) =
      let rest = check_each branch shas in
      if not (is_verified sha) then some (unsigned branch (take 12 sha)) else rest

  -- `listedCommits`
  abbrev pub list_commits : Text → Text → Text → Spawned
  list_commits remote base local_sha = spawn (codes "git") (
      codes "rev-list"
      ∷ codes "--reverse"
      ∷ range_from (remote ++ (codes "/" ++ base)) local_sha
      ∷ [])

  -- the checks of what was listed
  unfoldable pub check_listed : Text → Text → ℕ → Spawned → Option Report
  check_listed remote branch commits listed =
      if not (is_success listed.status)
        || not (length (shas_of listed) == commits)
        || some_of is_empty (shas_of listed)
      then some (cannot_list branch remote)
      else check_each branch (shas_of listed)

  -- `checkPrCommitSignatures`
  unfoldable pub check_pr_commit_signatures : Text → Text → Text → Text → ℕ → Option Report
  check_pr_commit_signatures remote base local_sha branch commits =
      if ltb 1 commits
      then check_listed remote branch commits (list_commits remote base local_sha)
      else none

  -- the checks of a count: `counted.status === 0`, and the number that was printed
  unfoldable pub check_counted : Text → Text → Text → Text → Bool → Number → Option Report
  check_counted remote base local_sha branch counted (whole commits) =
      if not counted || not (leb commits max_safe_integer)
      then some (cannot_count branch base remote)
      else if ltb commits 1
      then some (too_few_commits branch base (whole commits))
      else check_pr_commit_signatures remote base local_sha branch commits
  check_counted remote base local_sha branch counted (minus commits) =
      if not counted || not (leb commits max_safe_integer)
      then some (cannot_count branch base remote)
      else some (too_few_commits branch base (minus commits))
  check_counted remote base local_sha branch counted not_whole =
      some (cannot_count branch base remote)

  -- `counted`
  abbrev pub count_commits : Text → Text → Text → Spawned
  count_commits remote base local_sha = spawn (codes "git") (
      codes "rev-list"
      ∷ codes "--count"
      ∷ range_from (remote ++ (codes "/" ++ base)) local_sha
      ∷ [])

  -- `listed`
  abbrev pub list_prs : Text → Spawned
  list_prs branch = spawn (codes "gh") (
      codes "pr"
      ∷ codes "list"
      ∷ codes "--state"
      ∷ codes "open"
      ∷ codes "--head"
      ∷ branch
      ∷ codes "--json"
      ∷ codes "baseRefName,headRefName"
      ∷ codes "--limit"
      ∷ codes "2"
      ∷ [])

  module _ (to_number : Text → Number) where
    -- the body of the loop behind the guard, by the base of the pull request
    unfoldable pub check_base : Text → Text → Text → Option Text → Option Report
    check_base remote local_sha branch none = none
    check_base remote local_sha branch (some base) =
        let counted = count_commits remote base local_sha in
        check_counted remote base local_sha branch (is_success counted.status)
          (to_number (trim (text_or_empty counted.stdout)))

    -- the loop over the pull requests
    unfoldable pub check_prs : Text → Text → Text → List OpenPr → Option Report
    check_prs remote local_sha branch [] = none
    check_prs remote local_sha branch (pr ∷ prs) =
        or_later (check_base remote local_sha branch (base_of branch pr))
          (check_prs remote local_sha branch prs)

    -- `JSON.parse` and `Array.isArray`: `none` where the one throws or the other is false
    module _ (parse_prs : Text → Option (List OpenPr)) where
      -- what was parsed
      unfoldable pub check_parsed : Text → Text → Text → Option (List OpenPr) → Option Report
      check_parsed remote local_sha branch none = none
      check_parsed remote local_sha branch (some prs) = check_prs remote local_sha branch prs

      -- `checkPrCommitCount`
      unfoldable pub check_pr_commit_count : Text → Text → Text → Option Report
      check_pr_commit_count remote local_sha remote_ref =
          let listed = list_prs (branch_of remote_ref) in
          if not (starts_with (codes "refs/heads/") remote_ref) || is_zeros local_sha
          then none
          else if not (is_success listed.status)
          then none
          else check_parsed remote local_sha (branch_of remote_ref)
              (parse_prs (string_of listed.stdout))
