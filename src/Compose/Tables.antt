-- ===== src/Compose/Tables.antt =====
-- What a composition run that succeeds leaves on disk.
use socket_scan_patterns.Compose.Effects.{continue-eq-ok}
use socket_scan_patterns.Compose.Merging.{merge_row_sets-source_files}
use socket_scan_patterns.Compose.{
  TablePlan, table_plans, manifests_file_name, merge_row_sets, ComposedTable, manifest_row_set,
  compose_plans, compose_all_tables,
}
use socket_scan_patterns.Emit.Files.{IsWritten, write_scanner_table_lem}
use socket_scan_patterns.Emit.{DerivedRowSet, Disk, build_pattern_table, write_scanner_table}
use socket_scan_patterns.Failure.{ok}
use socket_scan_patterns.Prelude.{
  false, List, [], ◌∷◌, Option, some, ◌≡◌, sym, ◌∙◌, ap, inl, inr, Ordering, All,
}
use socket_scan_patterns.Schema.{PatternTable, ScannerName, manifests}
use socket_scan_patterns.Text.{Text, codes, text_eq}
use socket_scan_patterns.TextSet.{get}

module _ (locale_compare : Text → Text → Ordering) where
  written :
      (scanner : ScannerName) (file_name : Text) (row_set : DerivedRowSet) (disk : Disk)
      {u : Unit {0}}
      → (write_scanner_table locale_compare scanner file_name row_set disk).0 ≡ ok u
      → IsWritten locale_compare scanner file_name row_set disk
          (write_scanner_table locale_compare scanner file_name row_set disk).1
  written scanner file_name row_set disk h =
      elim (write_scanner_table_lem locale_compare scanner file_name row_set disk) [
        | inl (_, (e, failed)) ↦ cc (h, ap (λ r. r.0) failed)
        | inr (after, succeeded, w) ↦ rw succeeded w
      ]

  -- the plans were carried out one after the other
  abbrev Composes : List TablePlan → Disk → Disk → Type 0
  Composes [] before after = before ≡ after
  Composes (plan ∷ plans) before after =
      (row_set : DerivedRowSet) × (middle : Disk) × (merge_row_sets plan.source_names before
        ≡ ok row_set)
      × IsWritten locale_compare plan.scanner plan.file_name row_set before middle
      × Composes plans middle after

  compose_plans-Composes :
      (plans : List TablePlan) (composed all : List ComposedTable) (before after : Disk)
      → compose_plans locale_compare plans composed before ≡ (ok all, after)
      → Composes plans before after
  unfolding compose_plans
  compose_plans-Composes [] composed all before after h = ap (λ r. r.1) h
  compose_plans-Composes (plan ∷ plans) composed all before after h =
      let (row_set, merged, rest) =
        continue-eq-ok (merge_row_sets plan.source_names before) _ before after h in
      let (_, wrote, later) =
        continue-eq-ok
          (write_scanner_table locale_compare plan.scanner plan.file_name row_set before).0 _
          (write_scanner_table locale_compare plan.scanner plan.file_name row_set before).1 after
          rest in
      (
        row_set,
        (write_scanner_table locale_compare plan.scanner plan.file_name row_set before).1,
        merged,
        written plan.scanner plan.file_name row_set before wrote,
        compose_plans-Composes plans _ all _ after later,
      )

  -- one composition that succeeded, step by step
  record Run (before after : Disk) : Type 0 where
    planned : Disk
    secrets_row_set : DerivedRowSet
    plans : Composes table_plans before planned
    merged : merge_row_sets (codes "gitleaks" ∷ codes "trivy" ∷ []) planned ≡ ok secrets_row_set
    view :
        IsWritten locale_compare manifests manifests_file_name
          (manifest_row_set secrets_row_set)
          planned
          after

  compose_all_tables-Run :
      (composed : List ComposedTable) (before after : Disk)
      → compose_all_tables locale_compare before ≡ (ok composed, after)
      → Run before after
  unfolding compose_all_tables
  compose_all_tables-Run composed before after h =
      let ran = compose_plans locale_compare table_plans [] before in
      let (all, planned, rest) = continue-eq-ok ran.0 _ ran.1 after h in
      let (secrets_row_set, merged, rest') =
        continue-eq-ok (merge_row_sets (codes "gitleaks" ∷ codes "trivy" ∷ []) ran.1) _ ran.1 after
          rest in
      let wrote =
        write_scanner_table locale_compare manifests manifests_file_name
          (manifest_row_set secrets_row_set) ran.1 in
      let (_, viewed, last) = continue-eq-ok wrote.0 _ wrote.1 after rest' in
      record {
        planned = ran.1;
        secrets_row_set = secrets_row_set;
        plans =
            compose_plans-Composes table_plans [] all before ran.1 (ap (λ r. (r, ran.1)) planned);
        merged = merged;
        view =
            rw (ap (λ r. r.1) last) at (
              written manifests manifests_file_name (manifest_row_set secrets_row_set) ran.1
                viewed);
      }

  -- the file of one plan after a run
  abbrev PlanFile : Disk → Disk → TablePlan → Type 0
  PlanFile before after plan =
      (row_set : DerivedRowSet) × (merge_row_sets plan.source_names before ≡ ok row_set)
      × (get plan.file_name after.tables
          ≡ some (build_pattern_table locale_compare plan.scanner row_set))

  -- what `composeAllTables` promises of the disk
  pub record IsComposed (before after : Disk) : Type 0 where
    -- each planned file holds the table of its merged sources
    pub planned_files : All (PlanFile before after) table_plans
    -- the manifests file holds the view of the merged secrets
    pub secrets_row_set : DerivedRowSet
    pub merged : merge_row_sets (codes "gitleaks" ∷ codes "trivy" ∷ []) before ≡ ok secrets_row_set
    pub manifests_file :
        get manifests_file_name after.tables
        ≡ some (build_pattern_table locale_compare manifests (manifest_row_set secrets_row_set))
    pub source_files : after.source_files ≡ before.source_files
    -- no other table changes
    pub other_files :
        (file : Text)
        → text_eq manifests_file_name file ≡ false
        → All (λ plan. text_eq plan.file_name file ≡ false) table_plans
        → get file after.tables ≡ get file before.tables

  at_start :
      (before d : Disk) (names : List Text) {s : DerivedRowSet}
      → d.source_files ≡ before.source_files
      → merge_row_sets names d ≡ ok s
      → merge_row_sets names before ≡ ok s
  at_start before d names same m = merge_row_sets-source_files before d names (sym same) ∙ m

  -- A composition that returns has written each planned table from the merged rows of its sources
  -- and the manifests view from the merged secrets, and has changed no source file and no other
  -- table.
  pub compose_all_tables-IsComposed :
      (composed : List ComposedTable) (before after : Disk)
      → compose_all_tables locale_compare before ≡ (ok composed, after)
      → IsComposed before after
  unfolding text_eq
  compose_all_tables-IsComposed composed before after h =
      let run = compose_all_tables-Run composed before after h in
      let (s1, d1, m1, w1, (s2, d2, m2, w2, (s3, d3, m3, w3, (s4, d4, m4, w4, e)))) = run.plans in
      let f1 = w1.source_files in
      let f2 = w2.source_files ∙ f1 in
      let f3 = w3.source_files ∙ f2 in
      let f4 = w4.source_files ∙ f3 in
      let f5 : run.planned.source_files ≡ before.source_files = rw (← e) f4 in
      let last =
        λ (file : Text). ap {B = Option PatternTable} (λ (d : Disk). get file d.tables) (sym e) in
      record {
        planned_files = (
          (
            s1,
            m1,
            run.view.tables (codes "agent-configs.json")
                ∙ last (codes "agent-configs.json")
                ∙ w4.tables _
                ∙ w3.tables _
                ∙ w2.tables _
                ∙ w1.tables _,
          ),
          (
            (
              s2,
              at_start before d1 _ f1 m2,
              run.view.tables (codes "secrets.json")
                  ∙ last (codes "secrets.json")
                  ∙ w4.tables _
                  ∙ w3.tables _
                  ∙ w2.tables _,
            ),
            (
              (
                s3,
                at_start before d2 _ f2 m3,
                run.view.tables (codes "skills.json")
                    ∙ last (codes "skills.json")
                    ∙ w4.tables _
                    ∙ w3.tables _,
              ),
              (
                (
                  s4,
                  at_start before d3 _ f3 m4,
                  run.view.tables (codes "workflows.json")
                      ∙ last (codes "workflows.json")
                      ∙ w4.tables _,
                ),
                tt,
              ),
            ),
          ),
        );
        secrets_row_set = run.secrets_row_set;
        merged = merge_row_sets-source_files before run.planned _ (sym f5) ∙ run.merged;
        manifests_file = run.view.tables manifests_file_name;
        source_files = run.view.source_files ∙ f5;
        other_files = λ file other (o1, (o2, (o3, (o4, _)))).
            (rw other at (run.view.tables file))
            ∙ last file
            ∙ (rw o4 at (w4.tables file))
            ∙ (rw o3 at (w3.tables file))
            ∙ (rw o2 at (w2.tables file))
            ∙ (rw o1 at (w1.tables file));
      }
