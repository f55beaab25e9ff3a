-- ===== src/Push.antt =====
-- .git-hooks/_shared/push/range.mts and git.mts: the commits that a push brings, which the gates
-- scan. `spawnSync('git', args)` is a parameter, a function of the arguments: the repository does
-- not change while the range is computed.
pub mod Range
use socket_scan_patterns.Canonical.Replace.{split_at_first}
use socket_scan_patterns.Prelude.{
  ℕ, Bool, true, false, not, ◌||◌, List, [], ◌∷◌, ◌++◌, Option, none, some, ◌==◌, if◌then◌else◌,
  length, drop,
}
use socket_scan_patterns.Text.{Text, codes, starts_with, text_eq, trim}

-- what `spawnSync` returns, as far as the source reads it
pub record Spawned : Type 0 where
  pub status : Option ℕ
  pub stdout : Option Text

-- `status === 0`
abbrev pub is_success : Option ℕ → Bool
is_success none = false
is_success (some n) = n == 0

-- `stdout ?? ''`
abbrev pub text_or_empty : Option Text → Text
text_or_empty none = []
text_or_empty (some out) = out

-- `ZERO_SHA`
abbrev pub zero_sha : Text
zero_sha = codes "0000000000000000000000000000000000000000"

-- `text.replace(p, '')` of a string `p`, by the place where it stands
abbrev pub without : Text → Text → Option (Text × Text) → Text
without p text none = text
without p text (some (before, rest)) = before ++ drop (length p) rest

-- the text of a range
abbrev pub range_from : Text → Text → Text
range_from base local_sha = base ++ (codes ".." ++ local_sha)

module _ (spawn : List Text → Spawned) where
  -- `git`
  abbrev pub git : List Text → Text
  git args = trim (text_or_empty (spawn args).stdout)

  -- `refExists`
  unfoldable pub ref_exists : Text → Bool
  ref_exists ref = is_success (spawn (codes "rev-parse" ∷ ref ∷ [])).status

  -- `remoteShaExists`
  unfoldable pub remote_sha_exists : Text → Bool
  remote_sha_exists sha = is_success (spawn (codes "cat-file" ∷ codes "-e" ∷ sha ∷ [])).status

  -- `isAncestor`
  unfoldable pub is_ancestor : Text → Text → Bool
  is_ancestor ancestor descendant =
      is_success
        (spawn (codes "merge-base" ∷ codes "--is-ancestor" ∷ ancestor ∷ descendant ∷ [])).status

  -- the default branch, where the remote names none
  unfoldable pub guessed_branch : Text → Text
  guessed_branch remote =
      if ref_exists (remote ++ codes "/main")
      then codes "main"
      else if ref_exists (remote ++ codes "/master")
      then codes "master"
      else codes "main"

  -- the default branch, by what the remote names
  unfoldable pub branch_named : Text → Text → Text
  branch_named remote [] = guessed_branch remote
  branch_named remote (c ∷ cs) =
      let prefix = codes "refs/remotes/" ++ (remote ++ codes "/") in
      without prefix (c ∷ cs) (split_at_first prefix (c ∷ cs))

  -- `defaultBranchOf`
  unfoldable pub default_branch_of : Text → Text
  default_branch_of remote = branch_named remote (
      trim (git (codes "symbolic-ref" ∷ (codes "refs/remotes/" ++ (remote ++ codes "/HEAD")) ∷ [])))

  -- `baseRef`
  abbrev pub base_ref : Text → Text
  base_ref remote = remote ++ (codes "/" ++ default_branch_of remote)

  -- the range behind the default branch of the remote
  unfoldable pub range_behind_default : Text → Text → Option Text
  range_behind_default remote local_sha =
      if not (ref_exists (base_ref remote))
      then none
      else some (range_from (base_ref remote) local_sha)

  -- the range of a branch that the remote has
  unfoldable pub range_of_branch : Text → Text → Text → Option Text
  range_of_branch remote local_sha remote_sha =
      if not (remote_sha_exists remote_sha) || not (is_ancestor remote_sha local_sha)
      then range_behind_default remote local_sha
      else some (range_from remote_sha local_sha)

  -- the range of a push that updates or makes a branch
  unfoldable pub range_of_update : Text → Text → Text → Option Text
  range_of_update remote local_sha remote_sha =
      if text_eq remote_sha zero_sha
      then range_behind_default remote local_sha
      else range_of_branch remote local_sha remote_sha

  -- `computeRange`
  unfoldable pub compute_range : Text → Text → Text → Text → Option Text
  compute_range remote local_ref local_sha remote_sha =
      if starts_with (codes "refs/tags/") local_ref
      then none
      else if text_eq local_sha zero_sha
      then none
      else range_of_update remote local_sha remote_sha
