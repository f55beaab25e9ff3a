-- ===== src/Tests/ScanRuns.antt =====
-- registry/npm/scan/run.mts
use socket_scan_patterns.Failure.{Result, ok}
use socket_scan_patterns.Json.{
  Json, null, string, array, object, no_items, item, no_fields, field, prop, text_of,
}
use socket_scan_patterns.NpmScan.Ndjson.{artifacts, processing}
use socket_scan_patterns.NpmScan.Receipt.{NpmRemoteScanReceipt}
use socket_scan_patterns.NpmScan.Scan.Deadline.{read_full_scan_evidence-ends}
use socket_scan_patterns.NpmScan.Scan.Polling.{
  FullScanAttempt, streamed, Evidence, evidence, Reads, evaluate, judge, poll,
  read_full_scan_evidence, verdict_of, is_transient_npm_scan_read, is_transient_status,
}
use socket_scan_patterns.NpmScan.Scan.Summary.{IsSplit, summarize_resolved_policy_alerts-IsSplit}
use socket_scan_patterns.NpmScan.Scan.Verdict.{staged, verdict_of-receipt_from}
use socket_scan_patterns.NpmScan.Scan.{
  PolicyAlert, PolicyAlertSummary, summarize_resolved_policy_alerts, summarize_from,
  summarize_artifact, summarize_alerts, count_alert, detail_of, is_resolved_policy_alert,
  npm_blocking_malware_alerts, is_npm_blocking_malware_alert,
}
use socket_scan_patterns.NpmScan.Staged.{receipt_from}
use socket_scan_patterns.Prelude.{
  ℕ, zero, suc, ◌*◌, true, [], ◌∷◌, none, some, ◌≡◌, refl, arith, leb→le,
}
use socket_scan_patterns.Tests.StagedRuns.{strings, environment, sha, config, config_run}
use socket_scan_patterns.TextSet.{has}
use socket_scan_patterns.Text.{Text, codes, text_eq}

abbrev alert : Text → Text → Json
alert kind action =
    object (field (codes "type") (string kind) (field (codes "action") (string action) no_fields))

abbrev artifact : Json → Json → Json
artifact first second = object (
    field (codes "name") (string (codes "p"))
      (field (codes "alerts") (array (item first (item second no_items))) no_fields))

abbrev string_of : Json → Text
string_of (string t) = t
string_of _ = codes "?"

abbrev harmless : Json
harmless = artifact (alert (codes "cve") (codes "error")) (alert (codes "cve") (codes "ignore"))

abbrev seen : Text → PolicyAlert
seen action = record {
  action = action;
  artifact = codes "p@?";
  severity = string (codes "unknown");
  kind = codes "cve";
}

abbrev summary : PolicyAlertSummary
summary = record {
  alerts = seen (codes "error") ∷ seen (codes "ignore") ∷ [];
  error = seen (codes "error") ∷ [];
  total = 2;
  warn = [];
}

summary_run :
    (summarize_resolved_policy_alerts string_of (harmless ∷ []) ≡ some summary)
    × (summarize_resolved_policy_alerts string_of
          (artifact (alert (codes "cve") (codes "defer")) null ∷ [])
        ≡ none)
unfolding summarize_resolved_policy_alerts summarize_from summarize_artifact summarize_alerts
    count_alert detail_of is_resolved_policy_alert prop text_of has text_eq
summary_run = (refl, refl)

summarize_resolved_policy_alerts-IsSplit_example : IsSplit summary
summarize_resolved_policy_alerts-IsSplit_example =
    summarize_resolved_policy_alerts-IsSplit string_of (harmless ∷ []) summary summary_run.0

-- the scan is ready at the second read
abbrev attempts : ℕ → Result FullScanAttempt
attempts zero = ok (streamed processing)
attempts (suc n) = ok (streamed (artifacts (harmless ∷ [])))

abbrev reads : Reads
reads = record { attempt = attempts; now = λ n. 1000 * n; string_of = string_of }

evidence_run :
    (read_full_scan_evidence reads 2 0 ≡ some (evidence (harmless ∷ []) summary))
    × ((verdict_of (codes "s1") none (evidence (harmless ∷ []) summary)).ok ≡ true)
    × (is_transient_npm_scan_read (some 503) [] ≡ true)
unfolding read_full_scan_evidence poll judge evaluate summarize_resolved_policy_alerts
    summarize_from summarize_artifact summarize_alerts count_alert detail_of
    is_resolved_policy_alert prop text_of has text_eq verdict_of npm_blocking_malware_alerts
    is_npm_blocking_malware_alert is_transient_npm_scan_read is_transient_status
evidence_run = (refl, refl, refl)

verdict_of-receipt_from_example :
    (receipt : NpmRemoteScanReceipt) × (receipt_from config
        (staged (codes "seen") (verdict_of (codes "s1") none (evidence (harmless ∷ []) summary)))
      ≡ ok receipt)
unfolding verdict_of
verdict_of-receipt_from_example =
    verdict_of-receipt_from strings (environment sha) config reads 2 0
      (evidence (harmless ∷ []) summary) (codes "seen") (codes "s1") none config_run.0
      evidence_run.0 (b's', codes "1", refl) evidence_run.1 (leb→le 2 _ refl)

read_full_scan_evidence-ends_example :
    (found : Evidence) × (read_full_scan_evidence reads 121 0 ≡ some found)
read_full_scan_evidence-ends_example =
    read_full_scan_evidence-ends reads 0 (omega arith) (λ n. omega arith)
