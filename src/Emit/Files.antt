-- ===== src/Emit/Files.antt =====
-- What the writers leave on disk, and what the readers return.
use mathlib.Core.List.{Nodup}
use socket_scan_patterns.Prelude.{
  List, ◌++◌, ◌≡◌, refl, ◌⊎◌, inl, inr, some, Ordering, if◌then◌else◌,
}
use socket_scan_patterns.Emit.{
  DerivedRowSet, Disk, build_pattern_table, write_scanner_table, assert_rule_ids_unique,
}
use socket_scan_patterns.Emit.Unique.{ids, assert_rule_ids_unique-ok_iff}
use socket_scan_patterns.Failure.{Failure, Result, ok, err}
use socket_scan_patterns.Schema.{ScannerName, scanner_text}
use socket_scan_patterns.Text.{Text, codes, text_eq}
use socket_scan_patterns.TextSet.{get, put}
use socket_scan_patterns.TextSet.Laws.{get-put}

module _ (locale_compare : Text → Text → Ordering) where
  -- what `writeScannerTable` leaves on disk when it succeeds
  pub record IsWritten (scanner : ScannerName) (file_name : Text) (row_set : DerivedRowSet)
      (before after : Disk) : Type 0 where
    pub distinct : Nodup (ids (build_pattern_table locale_compare scanner row_set).rules)
    pub source_files : after.source_files ≡ before.source_files
    pub tables :
        (file : Text)
        → get file after.tables ≡ (
            if text_eq file_name file
            then some (build_pattern_table locale_compare scanner row_set)
            else get file before.tables)

  IsWritten-cases :
      (scanner : ScannerName) (file_name : Text) (row_set : DerivedRowSet) (disk : Disk)
      (checked : Result (Unit {0}))
      → assert_rule_ids_unique
          (build_pattern_table locale_compare scanner row_set).rules
          (codes "compose:" ++ scanner_text scanner)
        ≡ checked
      → ((e : Failure) × (checked ≡ err e)
          × (write_scanner_table locale_compare scanner file_name row_set disk ≡ (err e, disk)))
        ⊎ ((after : Disk) × (write_scanner_table locale_compare scanner file_name row_set disk
              ≡ (ok tt, after))
            × IsWritten scanner file_name row_set disk after)
  unfolding write_scanner_table
  IsWritten-cases scanner file_name row_set disk (ok u) e = inr (
    record disk {
      tables = put file_name (build_pattern_table locale_compare scanner row_set) disk.tables;
    },
    rw (e, write_scanner_table) refl,
    record {
      distinct =
          (assert_rule_ids_unique-ok_iff (build_pattern_table locale_compare scanner row_set).rules
              _).0
            e;
      source_files = refl;
      tables = λ file. get-put file_name file _ disk.tables;
    },
  )
  IsWritten-cases scanner file_name row_set disk (err f) e =
      inl (f, refl, rw (e, write_scanner_table) refl)

  -- Writing a scanner's table either fails, when an id repeats, and leaves the disk as it was, or
  -- writes the built table to its file and leaves every other file as it was.
  pub write_scanner_table_lem :
      (scanner : ScannerName) (file_name : Text) (row_set : DerivedRowSet) (disk : Disk)
      → ((¬ Nodup (ids (build_pattern_table locale_compare scanner row_set).rules))
          × ((e : Failure) × (write_scanner_table locale_compare scanner file_name row_set disk
                ≡ (err e, disk))))
        ⊎ ((after : Disk) × (write_scanner_table locale_compare scanner file_name row_set disk
              ≡ (ok tt, after))
            × IsWritten scanner file_name row_set disk after)
  write_scanner_table_lem scanner file_name row_set disk =
      elim (IsWritten-cases scanner file_name row_set disk _ refl) [
        | inl (e, failed, result) ↦
            inl (λ n. cc (failed, (assert_rule_ids_unique-ok_iff _ _).1 n), (e, result))
        | inr written ↦ inr written
      ]
