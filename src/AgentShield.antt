-- ===== src/AgentShield.antt =====
-- scripts/repo/gen/import-agentshield.mts: rows from the declared headers of AgentShield's rules.
pub mod Fields
pub mod Ordinals
pub mod Derived
use Fields.{AgentShieldRuleMeta, parse_agent_shield_rules}
use socket_scan_patterns.Emit.{DerivedRowSet, Disk, assert_rows_present, write_source_row_set}
use socket_scan_patterns.Failure.{Result, ok, err, unmapped_severity, too_few_rules, ◌>>=◌, ◌>>◌}
use socket_scan_patterns.Prelude.{
  ℕ, ◌+◌, Bool, true, false, List, [], ◌∷◌, ◌++◌, Option, none, some, Ordering, ◌==◌, ltb,
  if◌then◌else◌, length, keep,
}
use socket_scan_patterns.Schema.{
  PatternRule, PatternSeverity, critical, high, info, low, medium, js, audit,
}
use socket_scan_patterns.Text.Numbers.{number_text}
use socket_scan_patterns.Text.Order.{sort_texts}
use socket_scan_patterns.Text.{Text, codes, text_eq, ends_with}
use socket_scan_patterns.TextSet.{has, get, put}
use socket_scan_patterns.Upstream.{
  Host, UpstreamSlice, read_slice_file, slice_file_path, resolve_upstream_slice,
}

-- `AGENTSHIELD_RULES_REL_DIR`
abbrev pub agentshield_rules_rel_dir : Text
agentshield_rules_rel_dir = codes "src/rules"

-- `AGENTSHIELD_SKILL_MODULES`
abbrev pub agentshield_skill_modules : List Text
agentshield_skill_modules = codes "skills" ∷ []

-- `AGENTSHIELD_NON_RULE_MODULES`
abbrev pub agentshield_non_rule_modules : List Text
agentshield_non_rule_modules = codes "index" ∷ []

-- `AGENTSHIELD_MIN_EXPECTED_RULES`
abbrev pub agentshield_min_expected_rules : ℕ
agentshield_min_expected_rules = 100

-- `agentShieldSeverity`
unfoldable pub agent_shield_severity : Text → Result PatternSeverity
agent_shield_severity raw =
    if text_eq raw (codes "critical")
    then ok critical
    else if text_eq raw (codes "high")
    then ok high
    else if text_eq raw (codes "info")
    then ok info
    else if text_eq raw (codes "low")
    then ok low
    else if text_eq raw (codes "medium")
    then ok medium
    else err (unmapped_severity raw)

-- `idOrdinals`, and its value for an id, 0 where it has none
abbrev pub Ordinals : Type 0
Ordinals = List (Text × ℕ)

abbrev or_zero : Option ℕ → ℕ
or_zero none = 0
or_zero (some n) = n

abbrev pub ordinal_of : Text → Ordinals → ℕ
ordinal_of id ordinals = or_zero (get id ordinals)

-- `uniqueId`
abbrev pub unique_id : Text → ℕ → Text
unique_id id ordinal = if ordinal == 1 then id else id ++ (codes "-" ++ number_text ordinal)

-- `AgentShieldRowSets`
pub record AgentShieldRowSets : Type 0 where
  pub agent_configs : DerivedRowSet
  pub skills : DerivedRowSet

-- What the loop over the modules changes: the ordinals and the two arrays of rows.
pub record Rows : Type 0 where
  pub ordinals : Ordinals
  pub agent_config_rules : List PatternRule
  pub skill_rules : List PatternRule

abbrev pub no_rows : Rows
no_rows = record { ordinals = []; agent_config_rules = []; skill_rules = [] }

-- `fileName.replace(/\.ts$/, '')`
unfoldable pub without_ts : Text → Text
without_ts [] = []
without_ts (c ∷ cs) =
    let rest = without_ts cs in if text_eq (c ∷ cs) (codes ".ts") then [] else c ∷ rest

module _ (slice : UpstreamSlice) where
  -- the row of a header
  abbrev pub agent_shield_row : Text → AgentShieldRuleMeta → ℕ → PatternSeverity → PatternRule
  agent_shield_row source_file meta ordinal severity = record {
    category = meta.category;
    description = meta.description;
    dialect = js;
    entropy = none;
    id = codes "agentshield:" ++ unique_id meta.id ordinal;
    keywords = [];
    kind = audit;
    path_regex_source = none;
    provenance = record {
      license = slice.license;
      rule_id = meta.id;
      source = slice.source;
      source_file = source_file;
    };
    regex_flags = [];
    regex_source = none;
    severity = severity;
    title = meta.name;
  }

  -- the loop over the headers of a module, with the ordinals and the array that it fills
  unfoldable pub push_metas :
      Text
      → List AgentShieldRuleMeta
      → Ordinals × List PatternRule
      → Result (Ordinals × List PatternRule)
  push_metas source_file [] state = ok state
  push_metas source_file (meta ∷ metas) (ordinals, target) = do
    let ordinal = ordinal_of meta.id ordinals + 1
    severity ← agent_shield_severity meta.severity
    push_metas source_file metas (
      put meta.id ordinal ordinals,
      target ++ agent_shield_row source_file meta ordinal severity ∷ [],
    )

  -- one module: its rows go to the array that its name chooses
  unfoldable pub push_module : Text → Text → List AgentShieldRuleMeta → Rows → Result Rows
  push_module module_name source_file metas rows =
      if has module_name agentshield_skill_modules
      then (do
        (ordinals, target) ← push_metas source_file metas (rows.ordinals, rows.skill_rules)
        ok (record rows { ordinals = ordinals; skill_rules = target }))
      else (do
        (ordinals, target) ← push_metas source_file metas (rows.ordinals, rows.agent_config_rules)
        ok (record rows { ordinals = ordinals; agent_config_rules = target }))

module _ (host : Host) (slice : UpstreamSlice) where
  -- the loop over the module files
  unfoldable pub push_modules : List Text → Rows → Result Rows
  push_modules [] rows = ok rows
  push_modules (file_name ∷ file_names) rows =
      let module_name = without_ts file_name in
      let rel_path = agentshield_rules_rel_dir ++ codes "/" ++ file_name in
      if has module_name agentshield_non_rule_modules then push_modules file_names rows else (do
        source ← read_slice_file host slice rel_path
        more ←
            push_module slice module_name (slice_file_path host slice rel_path)
              (parse_agent_shield_rules source) rows
        push_modules file_names more)

  -- the assertions on the rows; only the rows for agent configurations must not be empty
  unfoldable pub check_agent_shield : Rows → Result AgentShieldRowSets
  check_agent_shield rows = do
    let source_file = slice_file_path host slice agentshield_rules_rel_dir
    let total = length rows.agent_config_rules + length rows.skill_rules
    assert_rows_present rows.agent_config_rules (codes "scripts/repo/gen/import-agentshield.mts")
        source_file
    if ltb total agentshield_min_expected_rules
        then err (too_few_rules source_file total agentshield_min_expected_rules)
        else ok (record {
          agent_configs = record { rules = rows.agent_config_rules; sources = slice.source ∷ [] };
          skills = record { rules = rows.skill_rules; sources = slice.source ∷ [] };
        })

  -- `moduleFiles`
  abbrev pub module_files : List Text
  module_files = sort_texts (
      keep (ends_with (codes ".ts"))
        (host.read_dir (host.path_join (slice.root_path ∷ agentshield_rules_rel_dir ∷ []))))

  -- `deriveAgentShieldRules`
  unfoldable pub derive_agent_shield_rules : Result AgentShieldRowSets
  derive_agent_shield_rules = do rows ← push_modules module_files no_rows; check_agent_shield rows

-- `generateAgentShieldSources`, with the two files that it writes
unfoldable pub generate_agent_shield_sources :
    (Text → Text → Ordering) → Host → Disk → Result (AgentShieldRowSets × Disk)
generate_agent_shield_sources locale_compare host disk = do
  slice ← resolve_upstream_slice host (codes "agentshield")
  row_sets ← derive_agent_shield_rules host slice
  let first =
      write_source_row_set locale_compare disk (codes "agentshield-agent-configs")
        row_sets.agent_configs
  ok (
    row_sets,
    write_source_row_set locale_compare first (codes "agentshield-skills") row_sets.skills,
  )
