-- ===== src/Emit.antt =====
-- scripts/repo/gen/_shared/emit-table.mts: the order of rules, the checks, and the files.
pub mod Order
pub mod Unique
pub mod Files
use socket_scan_patterns.Prelude.{
  ℕ, ◌-◌, ◌<◌, Bool, true, false, List, [], ◌∷◌, ◌++◌, Option, none, some, Ordering, compare, ltb,
  if◌then◌else◌, length, map, take,
}
use socket_scan_patterns.Failure.{Failure, Result, ok, err, zero_rows, duplicate_ids}
use socket_scan_patterns.Failure.{source_file_missing, no_rules_array, json_not_object}
use socket_scan_patterns.Schema.{
  PatternRule, PatternTable, ScannerName, PatternSeverity, critical, high, info, low, medium,
  pattern_table_schema_version, scanner_text,
}
use socket_scan_patterns.Sorting.{to_sorted}
use socket_scan_patterns.Text.{Text, codes}
use socket_scan_patterns.Text.Order.{sort_texts}
use socket_scan_patterns.TextSet.{has, add, get, put}

-- `DerivedRowSet`
pub record DerivedRowSet : Type 0 where
  pub rules : List PatternRule
  pub sources : List Text

-- `severityRank` of `sortPatternRules`
abbrev pub severity_rank : PatternSeverity → ℕ
severity_rank critical = 0
severity_rank high = 1
severity_rank info = 4
severity_rank low = 3
severity_rank medium = 2

-- `assertRowsPresent`
unfoldable pub assert_rows_present : List PatternRule → Text → Text → Result (Unit {0})
assert_rows_present [] generator source_file = err (zero_rows generator source_file)
assert_rows_present (_ ∷ _) generator source_file = ok tt

-- the loop of `assertRuleIdsUnique`: `seen`, then `duplicates`
unfoldable pub collect_duplicates : List PatternRule → List Text → List Text → List Text
collect_duplicates [] seen duplicates = duplicates
collect_duplicates (rule ∷ rules) seen duplicates =
    collect_duplicates rules (add rule.id seen)
      (if has rule.id seen then duplicates ++ rule.id ∷ [] else duplicates)

report_duplicates : Text → List Text → Result (Unit {0})
report_duplicates generator [] = ok tt
report_duplicates generator (d ∷ ds) =
    err (duplicate_ids generator (take 5 (d ∷ ds)) (length (d ∷ ds) - 5))

-- `assertRuleIdsUnique`. The message lists five ids, and counts the others.
unfoldable pub assert_rule_ids_unique : List PatternRule → Text → Result (Unit {0})
unfolding collect_duplicates report_duplicates
assert_rule_ids_unique rules generator =
    report_duplicates generator (collect_duplicates rules [] [])

-- A member of a parsed JSON object: missing, of another type, or of the type that is asked for.
pub data Member {ℓ} (A : Type ℓ) : Type ℓ where
  absent : Member A
  other : Member A
  is : A → Member A

-- An item of a JSON array of texts.
pub data Item : Type 0 where
  text : Text → Item
  not_text : Item

-- A member's value in a file under data/sources. An array is given as its two readers see it: as
-- rows, which is what the source casts it to, and as items of which it keeps the texts.
pub data Value : Type 0 where
  array : List PatternRule → List Item → Value
  number : ℕ → Value
  no_array : Value

-- The parsed value of a file under data/sources, by its members.
pub data SourceFile : Type 0 where
  not_object : SourceFile
  object : List (Text × Value) → SourceFile

-- data/sources: the path of a file, `path.join(DATA_SOURCES_DIR, file)`, and the files by path.
pub record SourceFiles : Type 0 where
  pub path : Text → Text
  pub files : List (Text × SourceFile)

-- The generated files: those of data/sources, and data/<file> by file name.
pub record Disk : Type 0 where
  pub source_files : SourceFiles
  pub tables : List (Text × PatternTable)

-- `inPath` and `outPath`
abbrev pub source_path : SourceFiles → Text → Text
source_path source_files name = source_files.path (name ++ codes ".json")

unfoldable pub items : List Text → List Item
items [] = []
items (t ∷ ts) = text t ∷ items ts

-- the filter of `readStringArrayProp`
unfoldable pub only_texts : List Item → List Text
only_texts [] = []
only_texts (text t ∷ xs) = t ∷ only_texts xs
only_texts (not_text ∷ xs) = only_texts xs

-- `readStringArrayProp`, by the member's value
unfoldable pub read_string_array_prop : Option Value → List Text
unfolding only_texts
read_string_array_prop (some (array rows xs)) = only_texts xs
read_string_array_prop _ = []

-- the rows of `root['rules']`, by its value, and the narrowing of `readSourceRowSet`
unfoldable pub row_set_from : Text → Option Value → List Text → Result DerivedRowSet
row_set_from name (some (array rows xs)) sources = ok (record { rules = rows; sources = sources })
row_set_from name _ sources = err (no_rules_array name)

-- The checks of `readSourceRowSet` on the file's value, after `readJsonObjectFile`.
unfoldable pub row_set_of : Text → Option SourceFile → Result DerivedRowSet
unfolding read_string_array_prop row_set_from
row_set_of name none = err (source_file_missing name)
row_set_of name (some not_object) = err (json_not_object name)
row_set_of name (some (object root)) =
    row_set_from name (get (codes "rules") root)
      (read_string_array_prop (get (codes "sources") root))

-- `readSourceRowSet`
unfoldable pub read_source_row_set : Disk → Text → Result DerivedRowSet
read_source_row_set disk name =
    row_set_of name (get (source_path disk.source_files name) disk.source_files.files)

-- `payload`, as the value that is read back
abbrev pub payload : List PatternRule → List Text → SourceFile
payload rules sources = object (
    (codes "rules", array rules (map (λ r. not_text) rules))
    ∷ (codes "schemaVersion", number pattern_table_schema_version)
    ∷ (codes "sources", array [] (items sources))
    ∷ [])

-- `String.prototype.localeCompare`, by the sign of its result
module _ (locale_compare : Text → Text → Ordering) where
  -- the comparator of `sortPatternRules`: ranks first, then ids
  unfoldable pub compare_rules : PatternRule → PatternRule → Ordering
  compare_rules a b = elim (compare (severity_rank a.severity) (severity_rank b.severity)) [
    | Ordering.lt ↦ Ordering.lt
    | Ordering.eq ↦ locale_compare a.id b.id
    | Ordering.gt ↦ Ordering.gt
  ]

  -- `sortPatternRules`
  unfoldable pub sort_pattern_rules : List PatternRule → List PatternRule
  unfolding to_sorted compare_rules
  sort_pattern_rules rules = to_sorted compare_rules rules

  -- `buildPatternTable`
  unfoldable pub build_pattern_table : ScannerName → DerivedRowSet → PatternTable
  build_pattern_table scanner row_set = record {
    rules = sort_pattern_rules row_set.rules;
    scanner = scanner;
    schema_version = pattern_table_schema_version;
    sources = sort_texts row_set.sources;
  }

  -- `writeSourceRowSet`
  unfoldable pub write_source_row_set : Disk → Text → DerivedRowSet → Disk
  write_source_row_set disk name row_set = record disk {
    source_files = record disk.source_files {
      files =
          put (source_path disk.source_files name)
            (payload (sort_pattern_rules row_set.rules) (sort_texts row_set.sources))
            disk.source_files.files;
    };
  }

  -- `writeScannerTable`: the assertion comes before the write
  unfoldable pub write_scanner_table :
      ScannerName → Text → DerivedRowSet → Disk → Result (Unit {0}) × Disk
  write_scanner_table scanner file_name row_set disk =
      let table = build_pattern_table scanner row_set in
      elim (assert_rule_ids_unique table.rules (codes "compose:" ++ scanner_text scanner)) [
        | ok _ ↦ (ok tt, record disk { tables = put file_name table disk.tables })
        | err e ↦ (err e, disk)
      ]
