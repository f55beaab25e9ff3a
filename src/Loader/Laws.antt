-- ===== src/Loader/Laws.antt =====
-- The cache is invisible, a loaded table has the current schema, and a lookup finds the only rule.
use mathlib.Core.List.{Mem, Mem-prop, Nodup, Nodup-cons, mem-cons, not-mem-nil}
use mathlib.Core.Logic.Or
use socket_scan_patterns.Emit.Unique.{ids}
use socket_scan_patterns.Failure.{ok, Result-cases}
use socket_scan_patterns.Loader.{
  Loaded, is_pattern_table, check_table, load_pattern_table, TableCache, same_scanner, remember,
  get_pattern_table, find_rule_by_id, table_file_by_scanner,
}
use socket_scan_patterns.Prelude.{
  true, List, [], ◌∷◌, Option, none, some, ◌≡◌, refl, sym, ap, ◌∙◌, inl, inr, arith, find,
  Bool-cases, Option-cases,
}
use socket_scan_patterns.Schema.{
  ScannerName, PatternRule, PatternTable, pattern_table_schema_version,
}
use socket_scan_patterns.Text.Equality.{text_eq_iff, text_eq_refl}
use socket_scan_patterns.Text.{Text, text_eq}

checked :
    (rel_path : Text) (value : Option PatternTable) (table : PatternTable)
    → check_table rel_path value ≡ ok table
    → (value ≡ some table) × (table.schema_version ≡ pattern_table_schema_version)
unfolding check_table
checked rel_path none table h = cc
checked rel_path (some t) table h = ground arith

same_scanner-eq : (s s' : ScannerName) → same_scanner s s' ≡ true → s ≡ s'
same_scanner-eq s s' h = ground arith

module _ (require_json : Text → Loaded) where
  -- A table that loads has the members' types and the current schema version.
  pub load_pattern_table-current :
      (scanner : ScannerName) (table : PatternTable)
      → load_pattern_table require_json scanner ≡ ok table
      → (is_pattern_table (require_json (table_file_by_scanner scanner)) ≡ some table)
        × (table.schema_version ≡ pattern_table_schema_version)
  unfolding load_pattern_table
  load_pattern_table-current scanner table h = checked _ _ table h

  -- every remembered table is what a load returns
  abbrev pub IsConsistent : TableCache → Type 0
  IsConsistent cache =
      (s : ScannerName) (table : PatternTable)
      → cache s ≡ some table
      → load_pattern_table require_json s ≡ ok table

  remember-IsConsistent :
      (scanner : ScannerName) (table : PatternTable) (cache : TableCache)
      → load_pattern_table require_json scanner ≡ ok table
      → IsConsistent cache
      → IsConsistent (remember cache scanner (ok table)).1
  unfolding remember
  remember-IsConsistent scanner table cache loaded c s t h =
      elim (Bool-cases (same_scanner scanner s)) [
        | inl same ↦
            let found : table ≡ t = ground arith in
            rw (← same_scanner-eq scanner s same) (loaded ∙ ap ok found)
        | inr other ↦ c s t (rw other at h)
      ]

  -- From a cache that agrees with the files, an accessor answers as a fresh load does, and the
  -- cache still agrees with the files.
  pub get_pattern_table-load :
      (scanner : ScannerName) (cache : TableCache)
      → IsConsistent cache
      → ((get_pattern_table require_json scanner cache).0 ≡ load_pattern_table require_json scanner)
        × IsConsistent (get_pattern_table require_json scanner cache).1
  unfolding get_pattern_table remember
  get_pattern_table-load scanner cache c = elim (Option-cases (cache scanner)) [
    | inl missing ↦ elim (Result-cases (load_pattern_table require_json scanner)) [
      | inl (table, loaded) ↦
          rw (missing, get_pattern_table, loaded)
            (refl, remember-IsConsistent scanner table cache loaded c)
      | inr (e, failed) ↦ rw (missing, get_pattern_table, failed) (refl, c)
    ]
    | inr (table, cached) ↦ rw (cached, get_pattern_table) (sym (c scanner table cached), c)
  ]

pub PatternRule-set : IsSet PatternRule
PatternRule-set = hlevel

Mem-ids : (rule : PatternRule) (rules : List PatternRule) → Mem rule rules → Mem rule.id (ids rules)
Mem-ids rule [] m = absurd (not-mem-nil m)
Mem-ids rule (x ∷ xs) m =
    Or.elim Mem-prop (mem-cons.0 m) (λ e. mem-cons.1 (Or.inl (ap (λ r. r.id) e)))
      (λ n. mem-cons.1 (Or.inr (Mem-ids rule xs n)))

find_unique :
    (rule : PatternRule) (rules : List PatternRule)
    → Nodup (ids rules)
    → Mem rule rules
    → find (λ r. text_eq r.id rule.id) rules ≡ some rule
find_unique rule [] n m = absurd (not-mem-nil m)
find_unique rule (x ∷ xs) n m = elim (Bool-cases (text_eq x.id rule.id)) [
  | inl same ↦
      let id_is = (text_eq_iff x.id rule.id).0 same in
      let is_rule : x ≡ rule =
        Or.elim (PatternRule-set x rule) (mem-cons.0 m) sym
          (λ later. absurd ((Nodup-cons.0 n).0 (rw id_is (Mem-ids rule xs later)))) in
      rw same (ap some is_rule)
  | inr other ↦
      let later : Mem rule xs =
        Or.elim Mem-prop (mem-cons.0 m)
          (λ e. absurd (cc (other, ap (λ r. text_eq r.id rule.id) e, text_eq_refl rule.id)))
          (λ there. there) in
      rw other (find_unique rule xs (Nodup-cons.0 n).1 later)
]

-- In a table whose ids are distinct, looking an id up finds the one rule that has it.
pub find_rule_by_id_unique :
    (table : PatternTable) (rule : PatternRule)
    → Nodup (ids table.rules)
    → Mem rule table.rules
    → find_rule_by_id table rule.id ≡ some rule
unfolding find_rule_by_id
find_rule_by_id_unique table rule distinct m = find_unique rule table.rules distinct m
