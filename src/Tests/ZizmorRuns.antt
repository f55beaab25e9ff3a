-- ===== src/Tests/ZizmorRuns.antt =====
-- port-zizmor-audits.mts
use socket_scan_patterns.Schema.{spdx}
use socket_scan_patterns.Emit.{DerivedRowSet, is, absent, assert_rows_present}
use socket_scan_patterns.Failure.{ok, err, unknown_status}
use socket_scan_patterns.Prelude.{List, [], ◌∷◌, none, some, ◌≡◌, ◌↔◌, refl}
use socket_scan_patterns.Tests.Samples.{sample_host}
use socket_scan_patterns.Text.Lines.{split_lines}
use socket_scan_patterns.Text.{
  Text, codes, text_eq, starts_with, trim, is_space, join, collapse_from,
}
use socket_scan_patterns.TextSet.{put, has, get, add, add_all}
use socket_scan_patterns.Upstream.{UpstreamSlice, slice_of}
use socket_scan_patterns.Zizmor.Docs.{
  ZizmorAuditDoc, parse_zizmor_audit_docs, extract_zizmor_summary, paragraph_from, is_not_prose,
}
use socket_scan_patterns.Zizmor.Triage.{IsTriaged, triage-ok_iff}
use socket_scan_patterns.Zizmor.{
  StatusMap, read_zizmor_audit_status, read_entries, status_of, triage, audits, entry, not_object,
  declined, planned, zizmor_row, zizmor_rows, checked_row,
}

abbrev markdown : Text
markdown =
    codes
      "# Audits\n\n## `a-b`\n\n| Type |\n|---|\n\n[x]: http://y\n\nFirst\nline.\n\nMore.\n\n## `c`\n\nSecond.\n"

abbrev docs : List ZizmorAuditDoc
docs =
    record { id = codes "a-b"; summary = codes "First line." }
    ∷ record { id = codes "c"; summary = codes "Second." }
    ∷ []

docs_run : parse_zizmor_audit_docs markdown ≡ docs
unfolding parse_zizmor_audit_docs extract_zizmor_summary paragraph_from is_not_prose split_lines
    starts_with trim is_space join collapse_from
docs_run = refl

abbrev statuses : StatusMap
statuses =
    (codes "c", record { reason = some (codes "no"); status = declined })
    ∷ (codes "a-b", record { reason = none; status = planned })
    ∷ []

status_run :
    (read_zizmor_audit_status (
        audits (
          is (
            (codes "c", entry (is (codes "declined")) (is (codes "no")))
            ∷ (codes "x", not_object)
            ∷ (codes "a-b", entry (is (codes "planned")) absent)
            ∷ [])))
      ≡ ok statuses)
    × (read_zizmor_audit_status
          (audits (is ((codes "c", entry (is (codes "Planned")) absent) ∷ [])))
        ≡ err (unknown_status (codes "c")))
unfolding read_zizmor_audit_status read_entries status_of text_eq put
status_run = (refl, refl)

abbrev slice : UpstreamSlice
slice = slice_of sample_host (codes "zizmor") (spdx (codes "MIT")) (codes "v1.2")

abbrev file : Text
file = codes "upstream/zizmor/docs/audits.md"

abbrev triaged : DerivedRowSet
triaged = record {
  rules =
      zizmor_row slice file (record { id = codes "a-b"; summary = codes "First line." })
        (record { reason = none; status = planned })
      ∷ zizmor_row slice file (record { id = codes "c"; summary = codes "Second." })
          (record { reason = some (codes "no"); status = declined })
      ∷ [];
  sources = codes "zizmor@v1.2" ∷ [];
}

triage_run : triage slice file docs statuses ≡ ok triaged
unfolding triage zizmor_rows checked_row assert_rows_present text_eq has get add add_all
triage_run = refl

triage-ok_iff_example :
    (triage slice file docs statuses ≡ ok triaged) ↔ IsTriaged slice file docs statuses triaged
triage-ok_iff_example = triage-ok_iff slice file docs statuses triaged
