-- ===== src/NpmScan/Scan/Verdict.antt =====
-- A scan that passes makes a receipt.
use socket_scan_patterns.Failure.{Result, ok, err}
use socket_scan_patterns.Json.{Json, number, object, whole, prop, is_json_object, max_safe_integer}
use socket_scan_patterns.NpmScan.Ndjson.{artifacts, processing, reason}
use socket_scan_patterns.NpmScan.Receipt.Counts.{IsPassing, has_passing_npm_scan_policy_counts_iff}
use socket_scan_patterns.NpmScan.Receipt.{NpmRemoteScanReceipt}
use socket_scan_patterns.NpmScan.Scan.Polling.{
  FullScanAttempt, streamed, missing_stream, read_status, Evidence, refused, evidence, Reads,
  evaluate, summarized, judge, poll, read_full_scan_evidence, ScanVerdict, verdict_of,
  full_scan_poll_interval_ms, full_scan_read_timeout_ms,
}
use socket_scan_patterns.NpmScan.Scan.Summary.{
  IsSplit, IsSplit-le, summarize_resolved_policy_alerts-IsSplit,
}
use socket_scan_patterns.NpmScan.Scan.{
  PolicyAlertSummary, npm_blocking_malware_alerts, summarize_resolved_policy_alerts,
}
use socket_scan_patterns.NpmScan.Staged.Identity.{IsGiven, receipt_from_iff}
use socket_scan_patterns.NpmScan.Staged.{
  Environment, Strings, ScanCiConfig, StagedScanVerdict, read_scan_ci_config, policy_of,
  receipt_from,
}
use socket_scan_patterns.Prelude.{
  ℕ, zero, suc, ◌+◌, ◌≤◌, Bool, true, List, [], ◌∷◌, Option, none, some, ◌==◌, ltb, ◌≡◌, refl, ap,
  length, Bool-cases, inl, inr, and_iff, ==_iff, some_injective, subst,
}
use socket_scan_patterns.Text.{Text, text_eq}

-- The verdict that a staged scan gives to the receipt, with some text for people.
abbrev pub staged : Text → ScanVerdict → StagedScanVerdict
staged detail v = record {
  blocking_alerts = whole v.blocking_alerts;
  detail = detail;
  error_alerts = length v.error_alerts;
  ok = v.ok;
  total_alerts = whole v.total_alerts;
  scan_id = v.scan_id;
  warn_alerts = length v.warn_alerts;
}

-- Evidence comes from alerts that were summarized.
IsSummarized : Evidence → Type 0
IsSummarized (refused why) = Unit
IsSummarized (evidence found summary) = IsSplit summary

module _ (reads : Reads) where
  summarized-IsSummarized :
      (found : List Json) (o : Option PolicyAlertSummary)
      → summarize_resolved_policy_alerts reads.string_of found ≡ o
      → IsSummarized (summarized reads found o)
  unfolding IsSummarized
  summarized-IsSummarized found none h = tt
  summarized-IsSummarized found (some summary) h =
      summarize_resolved_policy_alerts-IsSplit reads.string_of found summary h

  evaluate-IsSummarized : (found : List Json) → IsSummarized (evaluate reads found)
  unfolding evaluate IsSummarized
  evaluate-IsSummarized [] = tt
  evaluate-IsSummarized (a ∷ as') = summarized-IsSummarized (a ∷ as') _ refl

  judge-IsSummarized :
      (deadline time : ℕ) (attempt : Result FullScanAttempt) (rest : Option Evidence) (e : Evidence)
      → ((f : Evidence) → rest ≡ some f → IsSummarized f)
      → judge reads deadline time attempt rest ≡ some e
      → IsSummarized e
  unfolding judge IsSummarized
  judge-IsSummarized deadline time (err thrown) rest e h k =
      subst IsSummarized (some_injective k) tt
  judge-IsSummarized deadline time (ok (read_status status)) rest e h k =
      subst IsSummarized (some_injective k) tt
  judge-IsSummarized deadline time (ok missing_stream) rest e h k =
      subst IsSummarized (some_injective k) tt
  judge-IsSummarized deadline time (ok (streamed (reason why))) rest e h k =
      subst IsSummarized (some_injective k) tt
  judge-IsSummarized deadline time (ok (streamed (artifacts found))) rest e h k =
      subst IsSummarized (some_injective k) (evaluate-IsSummarized found)
  judge-IsSummarized deadline time (ok (streamed processing)) rest e h k =
      elim (Bool-cases (ltb deadline (time + full_scan_poll_interval_ms))) [
        | inl late ↦ subst IsSummarized (some_injective (rw late at k)) tt
        | inr early ↦ h e (rw early at k)
      ]

  poll-IsSummarized :
      (fuel deadline k : ℕ) (e : Evidence) → poll reads fuel deadline k ≡ some e → IsSummarized e
  unfolding poll
  poll-IsSummarized zero deadline k e h = cc
  poll-IsSummarized (suc fuel) deadline k e h =
      judge-IsSummarized deadline (reads.now k) (reads.attempt k) _ e
        (λ f g. poll-IsSummarized fuel deadline (suc k) f g) h

-- The counts of a verdict that passes.
verdict_of-IsPassing :
    (detail scan_id : Text) (threat : Option Bool) (e : Evidence)
    → IsSummarized e
    → (verdict_of scan_id threat e).ok ≡ true
    → (verdict_of scan_id threat e).total_alerts ≤ max_safe_integer
    → IsPassing (policy_of (staged detail (verdict_of scan_id threat e)))
unfolding verdict_of IsSummarized prop text_eq
verdict_of-IsPassing detail scan_id threat (refused why) h k safe = cc
verdict_of-IsPassing detail scan_id threat (evidence found summary) h k safe =
    let (clear, _) = (and_iff (length (npm_blocking_malware_alerts summary) == 0) _).0 k in
    record {
      errors = length summary.error;
      total = summary.total;
      warnings = length summary.warn;
      gate_is = refl;
      blocking_is = ap (λ (n : ℕ). some (number (whole n))) ((==_iff _ 0).0 clear);
      errors_are = refl;
      total_is = refl;
      warnings_are = refl;
      within = IsSplit-le summary h;
      safe = safe;
    }

verdict_id :
    (scan_id : Text) (threat : Option Bool) (e : Evidence)
    → (verdict_of scan_id threat e).ok ≡ true
    → (verdict_of scan_id threat e).scan_id ≡ some scan_id
unfolding verdict_of
verdict_id scan_id threat (refused why) h = cc
verdict_id scan_id threat (evidence found summary) h = refl

-- For a configuration that was read from an environment, the evidence of a finished scan, a scan
-- id that is not empty and a safe number of alerts, a verdict that passes makes a receipt: its
-- counts never stand in the way.
pub verdict_of-receipt_from :
    (strings : Strings) (env : Environment) (config : ScanCiConfig) (reads : Reads) (fuel began : ℕ)
    (found : Evidence) (detail scan_id : Text) (threat : Option Bool)
    → read_scan_ci_config strings env ≡ ok config
    → read_full_scan_evidence reads fuel began ≡ some found
    → IsGiven scan_id
    → (verdict_of scan_id threat found).ok ≡ true
    → (verdict_of scan_id threat found).total_alerts ≤ max_safe_integer
    → (receipt : NpmRemoteScanReceipt) × (receipt_from config
          (staged detail (verdict_of scan_id threat found))
        ≡ ok receipt)
unfolding read_full_scan_evidence is_json_object
verdict_of-receipt_from strings env config reads fuel began found detail scan_id threat h e given
      passed safe =
    let v = staged detail (verdict_of scan_id threat found) in
    let summarized_found =
      poll-IsSummarized reads fuel (began + full_scan_read_timeout_ms) 0 found e in
    (receipt_from_iff strings env config v h).1 (
      passed,
      (scan_id, given, verdict_id scan_id threat found passed),
      (has_passing_npm_scan_policy_counts_iff (some (object (policy_of v)))).1
          (verdict_of-IsPassing detail scan_id threat found summarized_found passed safe),
    )
