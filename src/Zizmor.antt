-- ===== src/Zizmor.antt =====
-- scripts/repo/gen/port-zizmor-audits.mts: the checklist of zizmor's audits.
pub mod Docs
pub mod Rows
pub mod Triage
pub mod Prose
use Docs.{ZizmorAuditDoc, parse_zizmor_audit_docs}
use socket_scan_patterns.Compose.{truthy}
use socket_scan_patterns.Emit.{
  DerivedRowSet, Disk, Member, is, absent, other, assert_rows_present, write_source_row_set,
}
use socket_scan_patterns.Failure.{
  Result, ok, err, json_not_object, no_audits_object, unknown_status, untriaged_audits,
  stale_audits, declined_without_reason, ◌>>=◌, ◌>>◌,
}
use socket_scan_patterns.Prelude.{
  ℕ, Bool, true, false, not, ◌&&◌, List, [], ◌∷◌, ◌++◌, Option, none, some, Ordering, if◌then◌else◌,
  keep, map,
}
use socket_scan_patterns.Schema.{PatternRule, PatternSeverity, info, low, medium, js, audit}
use socket_scan_patterns.Text.{Text, codes, text_eq}
use socket_scan_patterns.TextSet.{has, get, put, add_all}
use socket_scan_patterns.Upstream.{
  Host, UpstreamSlice, read_slice_file, slice_file_path, resolve_upstream_slice,
}

-- `ZIZMOR_AUDITS_REL_PATH`
abbrev pub zizmor_audits_rel_path : Text
zizmor_audits_rel_path = codes "docs/audits.md"

-- `ZizmorAuditStatus`
pub data ZizmorAuditStatus : Type 0 where
  declined implemented planned : ZizmorAuditStatus

-- `ZizmorAuditStatusEntry`
pub record ZizmorAuditStatusEntry : Type 0 where
  pub reason : Option Text
  pub status : ZizmorAuditStatus

-- `zizmorStatusToSeverity`
abbrev pub zizmor_status_to_severity : ZizmorAuditStatus → PatternSeverity
zizmor_status_to_severity declined = info
zizmor_status_to_severity implemented = medium
zizmor_status_to_severity planned = low

-- the status as the text that the file and the rows carry
abbrev pub status_text : ZizmorAuditStatus → Text
status_text declined = codes "declined"
status_text implemented = codes "implemented"
status_text planned = codes "planned"

-- A value of the `audits` object: not an object, or its members `status` and `reason`.
pub data RawEntry : Type 0 where
  not_object : RawEntry
  entry : Member Text → Member Text → RawEntry

-- The status file: a parsed value that is no object, or its member `audits` with its entries in
-- order of their keys' insertion.
pub data StatusFile : Type 0 where
  not_object : StatusFile
  audits : Member (List (Text × RawEntry)) → StatusFile

-- `readStringProp`
abbrev pub read_string_prop : Member Text → Option Text
read_string_prop (is t) = some t
read_string_prop _ = none

-- the test of `status`
unfoldable pub status_of : Text → Option Text → Result ZizmorAuditStatus
status_of id none = err (unknown_status id)
status_of id (some status) =
    if text_eq status (codes "declined")
    then ok declined
    else if text_eq status (codes "implemented")
    then ok implemented
    else if text_eq status (codes "planned")
    then ok planned
    else err (unknown_status id)

abbrev pub StatusMap : Type 0
StatusMap = List (Text × ZizmorAuditStatusEntry)

-- the loop of `readZizmorAuditStatus`; a value that is no object is skipped
unfoldable pub read_entries : List (Text × RawEntry) → StatusMap → Result StatusMap
read_entries [] entries = ok entries
read_entries ((id, not_object) ∷ raw) entries = read_entries raw entries
read_entries ((id, entry status reason) ∷ raw) entries = do
  known ← status_of id (read_string_prop status)
  read_entries raw (put id (record { reason = read_string_prop reason; status = known }) entries)

-- `readZizmorAuditStatus`
unfoldable pub read_zizmor_audit_status : StatusFile → Result StatusMap
read_zizmor_audit_status not_object = err (json_not_object (codes "zizmor-audit-status.json"))
read_zizmor_audit_status (audits (is raw)) = read_entries raw []
read_zizmor_audit_status (audits _) = err no_audits_object

-- the ids that the docs have and the status map has not
abbrev pub unlisted : StatusMap → List ZizmorAuditDoc → List Text
unlisted statuses docs = keep (λ id. not (has id (map (λ e. e.0) statuses))) (map (λ d. d.id) docs)

-- the ids that the status map has and the docs have not
abbrev pub stale : StatusMap → List ZizmorAuditDoc → List Text
stale statuses docs =
    keep (λ id. not (has id (add_all (map (λ d. d.id) docs) []))) (map (λ e. e.0) statuses)

-- throwing for the ids, if there are any
abbrev pub refuse : (List Text → Result (Unit {0})) → List Text → Result (Unit {0})
refuse refusal [] = ok tt
refuse refusal (id ∷ ids) = refusal (id ∷ ids)

abbrev is_declined : ZizmorAuditStatus → Bool
is_declined declined = true
is_declined _ = false

-- a status `declined` without a reason that is a nonempty text
abbrev pub is_unexplained : ZizmorAuditStatusEntry → Bool
is_unexplained e = is_declined e.status && not (truthy e.reason)

abbrev pub description_of : Text → Option Text → Text
description_of summary none = summary
description_of summary (some []) = summary
description_of summary (some (c ∷ cs)) = summary ++ (codes " Declined: " ++ c ∷ cs)

module _ (slice : UpstreamSlice) (source_file : Text) where
  -- the row of an audit
  abbrev pub zizmor_row : ZizmorAuditDoc → ZizmorAuditStatusEntry → PatternRule
  zizmor_row doc status_entry = record {
    category = status_text status_entry.status;
    description = description_of doc.summary status_entry.reason;
    dialect = js;
    entropy = none;
    id = codes "zizmor:" ++ doc.id;
    keywords = [];
    kind = audit;
    path_regex_source = none;
    provenance = record {
      license = slice.license;
      rule_id = doc.id;
      source = slice.source;
      source_file = source_file;
    };
    regex_flags = [];
    regex_source = none;
    severity = zizmor_status_to_severity status_entry.status;
    title = doc.id;
  }

  -- one round of the loop over the docs. An id without an entry cannot come here: the check before
  -- the loop has thrown.
  unfoldable pub checked_row : ZizmorAuditDoc → Option ZizmorAuditStatusEntry → Result PatternRule
  checked_row doc none = err (untriaged_audits (doc.id ∷ []))
  checked_row doc (some status_entry) =
      if is_unexplained status_entry
      then err (declined_without_reason doc.id)
      else ok (zizmor_row doc status_entry)

  unfoldable pub zizmor_rows : StatusMap → List ZizmorAuditDoc → Result (List PatternRule)
  zizmor_rows statuses [] = ok []
  zizmor_rows statuses (doc ∷ docs) = do
    row ← checked_row doc (get doc.id statuses)
    rows ← zizmor_rows statuses docs
    ok (row ∷ rows)

  -- `deriveZizmorAudits`, on the parsed docs and the status map
  unfoldable pub triage : List ZizmorAuditDoc → StatusMap → Result DerivedRowSet
  triage docs statuses = do
    refuse (λ ids. err (untriaged_audits ids)) (unlisted statuses docs)
    refuse (λ ids. err (stale_audits ids)) (stale statuses docs)
    rules ← zizmor_rows statuses docs
    assert_rows_present rules (codes "scripts/repo/gen/port-zizmor-audits.mts") source_file
    ok (record { rules = rules; sources = slice.source ∷ [] })

-- `deriveZizmorAudits`
unfoldable pub derive_zizmor_audits : Host → StatusFile → UpstreamSlice → Result DerivedRowSet
derive_zizmor_audits host status_file slice = do
  markdown ← read_slice_file host slice zizmor_audits_rel_path
  statuses ← read_zizmor_audit_status status_file
  triage slice (slice_file_path host slice zizmor_audits_rel_path)
      (parse_zizmor_audit_docs markdown) statuses

-- `generateZizmorSource`
unfoldable pub generate_zizmor_source :
    (Text → Text → Ordering) → Host → StatusFile → Disk → Result (DerivedRowSet × Disk)
generate_zizmor_source locale_compare host status_file disk = do
  slice ← resolve_upstream_slice host (codes "zizmor")
  row_set ← derive_zizmor_audits host status_file slice
  ok (row_set, write_source_row_set locale_compare disk (codes "zizmor") row_set)
