-- ===== src/Compose/Merging.antt =====
-- Merging row sets, against reading all of them first.
use mathlib.Core.List.{Mem, Nodup, Nodup-nil}
use socket_scan_patterns.Prelude.{
  List, [], ◌∷◌, ◌++◌, ◌≡◌, refl, sym, ◌↔◌, ap, ◌∙◌, append_assoc, append-nil, arith, inl, inr,
}
use socket_scan_patterns.Compose.{merge_from, merge_row_sets}
use socket_scan_patterns.Emit.{DerivedRowSet, Disk, source_path, read_source_row_set, row_set_of}
use socket_scan_patterns.Failure.{Result, ok, err, ◌>>=◌, Result-cases}
use socket_scan_patterns.Schema.{PatternRule}
use socket_scan_patterns.Text.{Text}
use socket_scan_patterns.TextSet.{add_all, get}
use socket_scan_patterns.TextSet.Laws.{Nodup-add_all, Mem-add_all_iff}

-- every source, in order, or the first failure
abbrev pub read_all : Disk → List Text → Result (List DerivedRowSet)
read_all disk [] = ok []
read_all disk (name ∷ names) = do
  row_set ← read_source_row_set disk name
  row_sets ← read_all disk names
  ok (row_set ∷ row_sets)

abbrev pub all_rules : List DerivedRowSet → List PatternRule
all_rules [] = []
all_rules (s ∷ sets) = s.rules ++ all_rules sets

abbrev pub all_sources : List DerivedRowSet → List Text
all_sources [] = []
all_sources (s ∷ sets) = s.sources ++ all_sources sets

add_all-append : (ts us set : List Text) → add_all (ts ++ us) set ≡ add_all us (add_all ts set)
unfolding add_all
add_all-append [] us set = refl
add_all-append (t ∷ ts) us set = add_all-append ts us _

-- the row sets in front of which `rules` and `sources` were collected
abbrev pub combined : List PatternRule → List Text → List DerivedRowSet → DerivedRowSet
combined rules sources sets = record {
  rules = rules ++ all_rules sets;
  sources = add_all (all_sources sets) sources;
}

after_first :
    (s : DerivedRowSet) (rules : List PatternRule) (sources : List Text)
    (rest : Result (List DerivedRowSet))
    → (rest >>= λ sets. ok (combined (rules ++ s.rules) (add_all s.sources sources) sets))
      ≡ ((rest >>= λ sets. ok (s ∷ sets)) >>= λ sets. ok (combined rules sources sets))
after_first s rules sources (ok sets) =
    rw (append_assoc rules s.rules (all_rules sets))
      (rw (add_all-append s.sources (all_sources sets) sources) refl)
after_first s rules sources (err e) = refl

merge_from-read_all :
    (disk : Disk) (names : List Text) (rules : List PatternRule) (sources : List Text)
    → merge_from disk names rules sources
      ≡ (read_all disk names >>= λ sets. ok (combined rules sources sets))
unfolding merge_from
merge_from-read_all disk [] rules sources =
    (unfold add_all in
      ap {B = Result DerivedRowSet} (λ r. ok (record { rules = r; sources = sources }))
        (sym (append-nil rules)))
merge_from-read_all disk (name ∷ names) rules sources =
    elim (Result-cases (read_source_row_set disk name)) [
      | inl (s, read) ↦
          rw (read, merge_from)
            (merge_from-read_all disk names (rules ++ s.rules) (add_all s.sources sources)
              ∙ after_first s rules sources (read_all disk names))
      | inr (e, failed) ↦ rw (failed, merge_from)
    ]

-- Merging reads every source in order, stopping at the first that fails, and then collects the
-- rows and the distinct source names.
pub merge_row_sets-read_all :
    (disk : Disk) (names : List Text)
    → merge_row_sets names disk ≡ (read_all disk names >>= λ sets. ok (combined [] [] sets))
unfolding merge_row_sets
merge_row_sets-read_all disk names = merge_from-read_all disk names [] []

read-source_files :
    (disk disk' : Disk) (name : Text)
    → disk.source_files ≡ disk'.source_files
    → read_source_row_set disk name ≡ read_source_row_set disk' name
unfolding read_source_row_set
read-source_files disk disk' name e = ap (λ f. row_set_of name (get (source_path f name) f.files)) e

merge_from-source_files :
    (disk disk' : Disk) (names : List Text) (rules : List PatternRule) (sources : List Text)
    → disk.source_files ≡ disk'.source_files
    → merge_from disk names rules sources ≡ merge_from disk' names rules sources
unfolding merge_from
merge_from-source_files disk disk' [] rules sources e = refl
merge_from-source_files disk disk' (name ∷ names) rules sources e =
    elim (Result-cases (read_source_row_set disk' name)) [
      | inl (s, read) ↦
          rw (read-source_files disk disk' name e, read, merge_from)
            (merge_from-source_files disk disk' names (rules ++ s.rules) (add_all s.sources sources)
              e)
      | inr (f, failed) ↦ rw (read-source_files disk disk' name e, failed, merge_from) refl
    ]

-- merging looks at nothing but the source files
pub merge_row_sets-source_files :
    (disk disk' : Disk) (names : List Text)
    → disk.source_files ≡ disk'.source_files
    → merge_row_sets names disk ≡ merge_row_sets names disk'
unfolding merge_row_sets
merge_row_sets-source_files disk disk' names e = merge_from-source_files disk disk' names [] [] e

-- what a merge that succeeds returns
pub record IsMerged (disk : Disk) (names : List Text) (merged : DerivedRowSet) : Type 0 where
  pub sets : List DerivedRowSet
  pub read : read_all disk names ≡ ok sets
  pub rules : merged.rules ≡ all_rules sets
  pub distinct_sources : Nodup merged.sources
  pub sources : (t : Text) → Mem t merged.sources ↔ Mem t (all_sources sets)

IsMerged-of :
    (disk : Disk) (names : List Text) (merged : DerivedRowSet) (r : Result (List DerivedRowSet))
    → read_all disk names ≡ r
    → (r >>= λ sets. ok (combined [] [] sets)) ≡ ok merged
    → IsMerged disk names merged
IsMerged-of disk names merged (err f) e h = cc
IsMerged-of disk names merged (ok sets) e h =
    let same : combined [] [] sets ≡ merged = ground arith in
    rw (← same) (record {
      sets = sets;
      read = e;
      rules = refl;
      distinct_sources = Nodup-add_all (all_sources sets) [] Nodup-nil;
      sources = λ t. Mem-add_all_iff t (all_sources sets);
    })

-- A merge that succeeds has read every source, its rows are those of all the sources in order, and
-- its source names are a set of exactly those that some row set carries.
pub merge_row_sets-IsMerged :
    (disk : Disk) (names : List Text) (merged : DerivedRowSet)
    → merge_row_sets names disk ≡ ok merged
    → IsMerged disk names merged
merge_row_sets-IsMerged disk names merged h =
    IsMerged-of disk names merged (read_all disk names) refl (rw merge_row_sets-read_all at h)
