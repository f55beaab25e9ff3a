-- ===== src/Compose.antt =====
-- scripts/repo/gen/compose-tables.mts: the five consumer tables from the derived row sets.
mod Effects
pub mod Merging
pub mod Tables
pub mod View
use Effects.{Io, pure, reads, ◌>>=◌, ◌>>◌}
use socket_scan_patterns.Prelude.{
  ℕ, Bool, true, false, ◌&&◌, List, [], ◌∷◌, ◌++◌, Option, none, some, Ordering, length, keep, map,
}
use socket_scan_patterns.Emit.{DerivedRowSet, Disk, read_source_row_set, write_scanner_table}
use socket_scan_patterns.Failure.{Result, ok, err}
use socket_scan_patterns.Schema.{
  PatternRule, ScannerName, agent_configs, manifests, secrets, skills, workflows, PatternKind, path,
}
use socket_scan_patterns.Text.{Text, codes}
use socket_scan_patterns.TextSet.{add_all}

-- `TablePlan`
pub record TablePlan : Type 0 where
  pub file_name : Text
  pub scanner : ScannerName
  pub source_names : List Text

-- `TABLE_PLANS`
abbrev pub table_plans : List TablePlan
table_plans =
    record {
      file_name = codes "agent-configs.json";
      scanner = agent_configs;
      source_names = codes "agentshield-agent-configs" ∷ [];
    }
    ∷ record {
      file_name = codes "secrets.json";
      scanner = secrets;
      source_names = codes "gitleaks" ∷ codes "trivy" ∷ [];
    }
    ∷ record {
      file_name = codes "skills.json";
      scanner = skills;
      source_names =
          codes "agentshield-skills" ∷ codes "codex-security" ∷ codes "skillspector" ∷ [];
    }
    ∷ record {
      file_name = codes "workflows.json";
      scanner = workflows;
      source_names = codes "zizmor" ∷ [];
    }
    ∷ []

-- `MANIFESTS_FILE_NAME`
abbrev pub manifests_file_name : Text
manifests_file_name = codes "manifests.json"

abbrev is_path : PatternKind → Bool
is_path path = true
is_path _ = false

-- `Boolean(text)`: neither `undefined` nor the empty string
abbrev pub truthy : Option Text → Bool
truthy none = false
truthy (some []) = false
truthy (some (_ ∷ _)) = true

-- `isManifestScopedRule`
abbrev pub is_manifest_scoped_rule : PatternRule → Bool
is_manifest_scoped_rule rule = is_path rule.kind && truthy rule.path_regex_source

-- the loop of `mergeRowSets`; an unread source throws
unfoldable pub merge_from : Disk → List Text → List PatternRule → List Text → Result DerivedRowSet
merge_from disk [] rules sources = ok (record { rules = rules; sources = sources })
merge_from disk (name ∷ names) rules sources = elim (read_source_row_set disk name) [
  | ok row_set ↦ merge_from disk names (rules ++ row_set.rules) (add_all row_set.sources sources)
  | err e ↦ err e
]

-- `mergeRowSets`
unfoldable pub merge_row_sets : List Text → Disk → Result DerivedRowSet
unfolding merge_from
merge_row_sets source_names disk = merge_from disk source_names [] []

-- `ComposedTable`
pub record ComposedTable : Type 0 where
  pub file_name : Text
  pub rule_count : ℕ
  pub scanner : ScannerName

-- the row set of the manifests view
abbrev pub manifest_row_set : DerivedRowSet → DerivedRowSet
manifest_row_set secrets_row_set =
    let rules = keep is_manifest_scoped_rule secrets_row_set.rules in
    record { rules = rules; sources = add_all (map (λ r. r.provenance.source) rules) [] }

module _ (locale_compare : Text → Text → Ordering) where
  -- the loop of `composeAllTables` over the plans
  unfoldable pub compose_plans : List TablePlan → List ComposedTable → Io (List ComposedTable)
  compose_plans [] composed = pure composed
  compose_plans (plan ∷ plans) composed = do
    row_set ← reads (merge_row_sets plan.source_names)
    write_scanner_table locale_compare plan.scanner plan.file_name row_set
    compose_plans plans (
        composed
        ++ record {
          file_name = plan.file_name;
          rule_count = length row_set.rules;
          scanner = plan.scanner;
        }
          ∷ [])

  -- `composeAllTables`
  unfoldable pub compose_all_tables : Io (List ComposedTable)
  compose_all_tables = do
    composed ← compose_plans table_plans []
    secrets_row_set ← reads (merge_row_sets (codes "gitleaks" ∷ codes "trivy" ∷ []))
    let manifest_rules = keep is_manifest_scoped_rule secrets_row_set.rules
    write_scanner_table locale_compare manifests manifests_file_name
        (manifest_row_set secrets_row_set)
    pure (
        composed
        ++ record {
          file_name = manifests_file_name;
          rule_count = length manifest_rules;
          scanner = manifests;
        }
          ∷ [])
