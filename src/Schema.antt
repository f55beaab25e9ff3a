-- ===== src/Schema.antt =====
-- src/types.mts: detector rules, provenance and tables. `undefined` members are `none`.
use socket_scan_patterns.Prelude.{ℕ, List, [], ◌∷◌, Option}
use socket_scan_patterns.Text.{Text, codes}

-- `ScannerName`
pub data ScannerName : Type 0 where
  agent_configs manifests secrets skills workflows : ScannerName

-- the string that each member of the union is
abbrev pub scanner_text : ScannerName → Text
scanner_text agent_configs = codes "agentConfigs"
scanner_text manifests = codes "manifests"
scanner_text secrets = codes "secrets"
scanner_text skills = codes "skills"
scanner_text workflows = codes "workflows"

-- `PatternSeverity`
pub data PatternSeverity : Type 0 where
  critical high info low medium : PatternSeverity

-- `PatternKind`
pub data PatternKind : Type 0 where
  audit capability path regex : PatternKind

-- `PatternDialect`
pub data PatternDialect : Type 0 where
  js re2 : PatternDialect

-- What stands as a license: a text on record, or a member that every object inherits, by its name.
-- The source declares a string; looked up under a name like `constructor`, it gets such a member.
pub data License : Type 0 where
  spdx : Text → License
  inherited : Text → License

-- `PatternProvenance`
pub record PatternProvenance : Type 0 where
  pub license : License
  pub rule_id : Text
  pub source : Text
  pub source_file : Text

-- A number that a generator reads with `Number(...)`: the decimal digits of its literal, before and
-- after the point. The generators never calculate with it.
pub record Decimal : Type 0 where
  pub whole : Text
  pub fraction : Text

-- `PatternRule`
pub record PatternRule : Type 0 where
  pub category : Text
  pub description : Text
  pub entropy : Option Decimal
  pub id : Text
  pub keywords : List Text
  pub dialect : PatternDialect
  pub kind : PatternKind
  pub regex_flags : Text
  pub path_regex_source : Option Text
  pub provenance : PatternProvenance
  pub regex_source : Option Text
  pub severity : PatternSeverity
  pub title : Text

-- `PatternTable`
pub record PatternTable : Type 0 where
  pub sources : List Text
  pub rules : List PatternRule
  pub scanner : ScannerName
  pub schema_version : ℕ

-- `PATTERN_TABLE_SCHEMA_VERSION`
abbrev pub pattern_table_schema_version : ℕ
pattern_table_schema_version = 1

-- `PATTERN_SEVERITY_ORDER`
abbrev pub pattern_severity_order : List PatternSeverity
pattern_severity_order = critical ∷ high ∷ medium ∷ low ∷ info ∷ []
