-- ===== src/UpstreamTree/Gate.antt =====
-- What the gate lets through.
use mathlib.Core.List.Perm
use mathlib.Core.List.{Mem, Perm}
use socket_scan_patterns.Prelude.{
  Bool, true, false, not, List, [], ◌∷◌, ◌≡◌, ◌⊎◌, ◌↔◌, refl, arith, Bool-cases, inl, inr, All,
  some_of, keep, keep→Mem, Mem→keep,
}
use socket_scan_patterns.Sorting.Laws.{sort_by-perm}
use socket_scan_patterns.Text.Order.{sort_texts, text_le}
use socket_scan_patterns.Text.{Text, codes, ends_with, includes}
use socket_scan_patterns.UpstreamTree.{
  Entries, has_slash, named_at_root, copyleft_root_metadata, root_names, walk_slice_files,
  is_allowed_copyleft_path, list_non_test_files,
}

not-false : (b : Bool) → b ≡ false → not b ≡ true
not-false false h = refl
not-false true h = cc

not-true : (b : Bool) → not b ≡ true → b ≡ false
not-true false h = refl
not-true true h = cc

-- A name without a slash, and behind it none, is a path without one.
named_at_root-flat :
    (name path : Text)
    → has_slash name ≡ false
    → named_at_root name path ≡ true
    → has_slash path ≡ false
unfolding named_at_root
named_at_root-flat [] path n h = not-true _ h
named_at_root-flat (p ∷ ps) [] n h = cc
named_at_root-flat (p ∷ ps) (c ∷ cs) n h = ground (arith, named_at_root-flat ps cs)

some_name-flat :
    (path : Text) (names : List Text)
    → All (λ name. has_slash name ≡ false) names
    → some_of (λ name. named_at_root name path) names ≡ true
    → has_slash path ≡ false
some_name-flat path [] flat h = cc
some_name-flat path (name ∷ names) (f, flat) h = elim (Bool-cases (named_at_root name path)) [
  | inl e ↦ named_at_root-flat name path f e
  | inr e ↦ some_name-flat path names flat (rw e at h)
]

copyleft_root_metadata-flat :
    (path : Text) → copyleft_root_metadata path ≡ true → has_slash path ≡ false
unfolding copyleft_root_metadata has_slash
copyleft_root_metadata-flat path h =
    some_name-flat path root_names (refl, (refl, (refl, (refl, (refl, (refl, tt)))))) h

module _ (normalize_path : Text → Text) where
  abbrev is_refused : Text → Bool
  is_refused path = not (is_allowed_copyleft_path normalize_path path)

  refused-perm :
      (worktree : Entries)
      → Perm
          (list_non_test_files normalize_path worktree)
          (keep is_refused (walk_slice_files [] worktree))
  unfolding list_non_test_files sort_texts
  refused-perm worktree = sort_by-perm text_le (keep is_refused (walk_slice_files [] worktree))

  -- The gate lists exactly the files of the walk that are not allowed.
  pub list_non_test_files-Mem_iff :
      (worktree : Entries) (path : Text)
      → Mem path (list_non_test_files normalize_path worktree) ↔ (
          Mem path (walk_slice_files [] worktree)
          × (is_allowed_copyleft_path normalize_path path ≡ false))
  list_non_test_files-Mem_iff worktree path =
      let same = Perm.mem_iff (refused-perm worktree) in
      (
        λ m.
            let (walked, refused) = keep→Mem is_refused path _ (same.0 m) in
            (walked, not-true _ refused),
        λ (walked, refused). same.1 (Mem→keep is_refused path _ walked (not-false _ refused)),
      )

  -- A path that is allowed in a copyleft slice, once normalized, ends in _test.go, or contains
  -- /testdata/, or has no slash.
  pub is_allowed_copyleft_path-cases :
      (path : Text)
      → is_allowed_copyleft_path normalize_path path ≡ true
      → (ends_with (codes "_test.go") (normalize_path path) ≡ true)
        ⊎ ((includes (codes "/testdata/") (normalize_path path) ≡ true)
            ⊎ (has_slash (normalize_path path) ≡ false))
  unfolding is_allowed_copyleft_path
  is_allowed_copyleft_path-cases path h =
      elim (Bool-cases (ends_with (codes "_test.go") (normalize_path path))) [
        | inl test ↦ inl test
        | inr other ↦ elim (Bool-cases (includes (codes "/testdata/") (normalize_path path))) [
          | inl data_file ↦ inr (inl data_file)
          | inr neither ↦
              inr
                (inr (copyleft_root_metadata-flat (normalize_path path) (rw (other, neither) at h)))
        ]
      ]
