-- ===== src/Loader.antt =====
-- src/load-table.mts and src/index.mts: loading, validating and memoizing a table, and the helpers
-- over its rules.
pub mod Laws
use socket_scan_patterns.Emit.{Member, is, absent, other}
use socket_scan_patterns.Failure.{Result, ok, err, malformed_table, schema_mismatch}
use socket_scan_patterns.Prelude.{
  ℕ, Bool, true, false, not, ◌||◌, List, [], ◌∷◌, Option, none, some, ◌==◌, if◌then◌else◌, keep,
  find,
}
use socket_scan_patterns.Compose.{truthy}
use socket_scan_patterns.Dialect.{is_js}
use socket_scan_patterns.Schema.{
  ScannerName, agent_configs, manifests, secrets, skills, workflows, PatternRule, PatternTable,
  pattern_table_schema_version,
}
use socket_scan_patterns.Text.{Text, codes, text_eq}

-- `TABLE_FILE_BY_SCANNER`
abbrev pub table_file_by_scanner : ScannerName → Text
table_file_by_scanner agent_configs = codes "../data/agent-configs.json"
table_file_by_scanner manifests = codes "../data/manifests.json"
table_file_by_scanner secrets = codes "../data/secrets.json"
table_file_by_scanner skills = codes "../data/skills.json"
table_file_by_scanner workflows = codes "../data/workflows.json"

-- The members that the loader looks at, of the object that a JSON file holds. The loader tests for an
-- array, a string and a number; one that passes is given at the type of the narrowing to
-- PatternTable, so that a string that names no scanner and a version that is no natural number are
-- not among the values here.
pub record Candidate : Type 0 where
  pub rules : Member (List PatternRule)
  pub sources : Member (List Text)
  pub scanner : Member ScannerName
  pub schema_version : Member ℕ

-- What `requireJson` returns, as far as the loader looks at it. An array is an object here, one
-- with none of the members.
pub data Loaded : Type 0 where
  not_object : Loaded
  object : Candidate → Loaded

abbrev pub is_member {ℓ} : {A : Type ℓ} → Member A → Bool
is_member absent = false
is_member other = false
is_member (is a) = true

-- the value as a table, if the four members have their types
unfoldable pub as_table :
    Member (List PatternRule)
    → Member (List Text)
    → Member ScannerName
    → Member ℕ
    → Option PatternTable
as_table (is rules) (is sources) (is scanner) (is version) =
    some (record { sources = sources; rules = rules; scanner = scanner; schema_version = version })
as_table _ _ _ _ = none

-- `isPatternTable`, with the value at its narrowed type
unfoldable pub is_pattern_table : Loaded → Option PatternTable
unfolding as_table
is_pattern_table not_object = none
is_pattern_table (object c) = as_table c.rules c.sources c.scanner c.schema_version

-- the two checks of `loadPatternTable`
unfoldable pub check_table : Text → Option PatternTable → Result PatternTable
check_table rel_path none = err (malformed_table rel_path)
check_table rel_path (some table) =
    if table.schema_version == pattern_table_schema_version
    then ok table
    else err (schema_mismatch rel_path table.schema_version)

-- `tableCache`, a map by scanner; a table is an object, so it is truthy
abbrev pub TableCache : Type 0
TableCache = ScannerName → Option PatternTable

abbrev pub same_scanner : ScannerName → ScannerName → Bool
same_scanner agent_configs agent_configs = true
same_scanner manifests manifests = true
same_scanner secrets secrets = true
same_scanner skills skills = true
same_scanner workflows workflows = true
same_scanner _ _ = false

-- what `getPatternTable` does after the load: store, and return
unfoldable pub remember :
    TableCache → ScannerName → Result PatternTable → Result PatternTable × TableCache
remember cache scanner (ok table) =
    (ok table, λ s. if same_scanner scanner s then some table else cache s)
remember cache scanner (err e) = (err e, cache)

-- The module system: what `require` returns for a path of the package's data.
module _ (require_json : Text → Loaded) where
  -- `loadPatternTable`
  unfoldable pub load_pattern_table : ScannerName → Result PatternTable
  load_pattern_table scanner =
      let rel_path = table_file_by_scanner scanner in
      check_table rel_path (is_pattern_table (require_json rel_path))

  -- `getPatternTable`, with the module's cache before and after
  unfoldable pub get_pattern_table : ScannerName → TableCache → Result PatternTable × TableCache
  get_pattern_table scanner cache = elim (cache scanner) [
    | some table ↦ (ok table, cache)
    | none ↦ remember cache scanner (load_pattern_table scanner)
  ]

  -- `getAgentConfigsTable`, and the accessors of the other four
  abbrev pub get_agent_configs_table : TableCache → Result PatternTable × TableCache
  get_agent_configs_table = get_pattern_table agent_configs

  abbrev pub get_manifests_table : TableCache → Result PatternTable × TableCache
  get_manifests_table = get_pattern_table manifests

  abbrev pub get_secrets_table : TableCache → Result PatternTable × TableCache
  get_secrets_table = get_pattern_table secrets

  abbrev pub get_skills_table : TableCache → Result PatternTable × TableCache
  get_skills_table = get_pattern_table skills

  abbrev pub get_workflows_table : TableCache → Result PatternTable × TableCache
  get_workflows_table = get_pattern_table workflows

-- `findRuleById`
unfoldable pub find_rule_by_id : PatternTable → Text → Option PatternRule
find_rule_by_id table id = find (λ r. text_eq r.id id) table.rules

-- `selectJsCompilableRules`
unfoldable pub select_js_compilable_rules : PatternTable → List PatternRule
select_js_compilable_rules table = keep (λ r. is_js r.dialect) table.rules

-- What `new RegExp` is called with, if the rule has such a pattern: `undefined` and the empty
-- string are no pattern.
abbrev pub regex_call : Bool → Option Text → Text → Option (Text × Text)
regex_call false source flags = none
regex_call true none flags = none
regex_call true (some []) flags = none
regex_call true (some (c ∷ cs)) flags = some (c ∷ cs, flags)

-- `compileRuleRegex`: the arguments of the constructor
unfoldable pub compile_rule_regex : PatternRule → Option (Text × Text)
compile_rule_regex rule = regex_call (is_js rule.dialect) rule.regex_source rule.regex_flags

-- `compileRulePathRegex`: the path pattern is compiled with the flags of the content pattern
unfoldable pub compile_rule_path_regex : PatternRule → Option (Text × Text)
compile_rule_path_regex rule =
    regex_call (is_js rule.dialect) rule.path_regex_source rule.regex_flags
