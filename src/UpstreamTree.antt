-- ===== src/UpstreamTree.antt =====
-- scripts/repo/upstream-tree.mts: what a copyleft slice may hold on disk.
pub mod Gate
use socket_scan_patterns.Prelude.{
  Bool, true, false, not, ◌||◌, List, [], ◌∷◌, ◌++◌, ◌==◌, if◌then◌else◌, keep, some_of,
}
use socket_scan_patterns.Text.Order.{sort_texts}
use socket_scan_patterns.Text.{Text, codes, ends_with, includes, text_eq}

-- whether a slash stands in a text
unfoldable pub has_slash : Text → Bool
has_slash [] = false
has_slash (c ∷ cs) = c == b'/' || has_slash cs

-- a name, and behind it no slash up to the end
unfoldable pub named_at_root : Text → Text → Bool
unfolding has_slash
named_at_root [] s = not (has_slash s)
named_at_root (p ∷ ps) [] = false
named_at_root (p ∷ ps) (c ∷ cs) = let rest = named_at_root ps cs in if p == c then rest else false

-- the names of `COPYLEFT_ROOT_METADATA`
abbrev pub root_names : List Text
root_names =
    codes "AUTHORS"
    ∷ codes "CONTRIBUTORS"
    ∷ codes "COPYING"
    ∷ codes "LICENSE"
    ∷ codes "NOTICE"
    ∷ codes "README"
    ∷ []

-- `COPYLEFT_ROOT_METADATA.test(path)`: one of the names, then `[^/]*` up to the end
unfoldable pub copyleft_root_metadata : Text → Bool
copyleft_root_metadata path = some_of (λ name. named_at_root name path) root_names

-- The entries of a directory, in the order in which `readdirSync` lists them: each with its name, a
-- directory with its own entries, and the entries behind it.
pub data Entries : Type 0 where
  end : Entries
  file : Text → Entries → Entries
  directory : Text → Entries → Entries → Entries

-- `relPath`
abbrev pub rel_path_of : Text → Text → Text
rel_path_of [] name = name
rel_path_of (c ∷ cs) name = (c ∷ cs) ++ (codes "/" ++ name)

-- `walkSliceFiles`: the paths that the callback is called with, in order
unfoldable pub walk_slice_files : Text → Entries → List Text
walk_slice_files prefix end = []
walk_slice_files prefix (file name entries) =
    let more = walk_slice_files prefix entries in
    if text_eq name (codes ".git") then more else rel_path_of prefix name ∷ more
walk_slice_files prefix (directory name inner entries) =
    let more = walk_slice_files prefix entries in
    let below = walk_slice_files (rel_path_of prefix name) inner in
    if text_eq name (codes ".git") then more else below ++ more

-- `normalizePath` of the Socket library
module _ (normalize_path : Text → Text) where
  -- `isAllowedCopyleftPath`
  unfoldable pub is_allowed_copyleft_path : Text → Bool
  is_allowed_copyleft_path rel_path =
      ends_with (codes "_test.go") (normalize_path rel_path)
      || includes (codes "/testdata/") (normalize_path rel_path)
      || copyleft_root_metadata (normalize_path rel_path)

  -- `listNonTestFiles`
  unfoldable pub list_non_test_files : Entries → List Text
  list_non_test_files worktree =
      sort_texts (keep (λ path. not (is_allowed_copyleft_path path)) (walk_slice_files [] worktree))
