-- ===== src/NpmScan/Scan/Polling.antt =====
-- Polling a full scan, and the verdict.
use socket_scan_patterns.Failure.{Failure, Result, ok, err}
use socket_scan_patterns.Json.{Json}
use socket_scan_patterns.NpmScan.Ndjson.{
  FullScanStreamResult, artifacts, processing, reason, Reason,
}
use socket_scan_patterns.NpmScan.Scan.{
  PolicyAlert, PolicyAlertSummary, npm_blocking_malware_alerts, summarize_resolved_policy_alerts,
}
use socket_scan_patterns.Prelude.{
  ℕ, zero, suc, ◌+◌, Bool, true, false, ◌&&◌, ◌||◌, List, [], ◌∷◌, Option, none, some, ◌==◌, ltb,
  leb, ◌*◌, if◌then◌else◌, length,
}
use socket_scan_patterns.TextSet.{has}
use socket_scan_patterns.Text.{Text, codes}

-- `FullScanAttempt`
pub data FullScanAttempt : Type 0 where
  streamed : FullScanStreamResult → FullScanAttempt
  missing_stream : FullScanAttempt
  read_status : Option ℕ → FullScanAttempt

-- `isTransientNpmScanRead` of an error with a status, or with a code
unfoldable pub is_transient_status : ℕ → Bool
is_transient_status status = status == 408 || status == 429 || (leb 500 status && leb status 599)

unfoldable pub is_transient_npm_scan_read : Option ℕ → Text → Bool
is_transient_npm_scan_read (some status) code = is_transient_status status
is_transient_npm_scan_read none code = has code (
    codes "EAI_AGAIN"
    ∷ codes "ECONNRESET"
    ∷ codes "ECONNREFUSED"
    ∷ codes "ETIMEDOUT"
    ∷ codes "UND_ERR_CONNECT_TIMEOUT"
    ∷ codes "UND_ERR_HEADERS_TIMEOUT"
    ∷ codes "UND_ERR_SOCKET"
    ∷ [])

-- `FULL_SCAN_POLL_INTERVAL_MS` and `FULL_SCAN_READ_TIMEOUT_MS`
abbrev pub full_scan_poll_interval_ms : ℕ
full_scan_poll_interval_ms = 1000

abbrev pub full_scan_read_timeout_ms : ℕ
full_scan_read_timeout_ms = 2 * 60 * 1000

-- What a refusal says, by its parts.
pub data Refusal : Type 0 where
  unreadable : Option ℕ → Refusal
  no_stream still_processing no_artifacts unresolved : Refusal
  stream_reason : Reason → Refusal
  read_threw : Failure → Refusal

-- what `readFullScanEvidence` returns
pub data Evidence : Type 0 where
  refused : Refusal → Evidence
  evidence : List Json → PolicyAlertSummary → Evidence

-- The platform: what the reads of the scan give, with their retries, each by its number; the clock
-- behind each read; and `String` of a value.
pub record Reads : Type 0 where
  pub attempt : ℕ → Result FullScanAttempt
  pub now : ℕ → ℕ
  pub string_of : Json → Text

module _ (reads : Reads) where
  abbrev pub summarized : List Json → Option PolicyAlertSummary → Evidence
  summarized found none = refused unresolved
  summarized found (some summary) = evidence found summary

  -- the end of the loop's body, for artifacts
  unfoldable pub evaluate : List Json → Evidence
  evaluate [] = refused no_artifacts
  evaluate (a ∷ as') =
      summarized (a ∷ as') (summarize_resolved_policy_alerts reads.string_of (a ∷ as'))

  -- the body of the loop, and the rest of the loop for a scan that is still processing
  unfoldable pub judge : ℕ → ℕ → Result FullScanAttempt → Option Evidence → Option Evidence
  judge deadline time (err thrown) rest = some (refused (read_threw thrown))
  judge deadline time (ok (read_status status)) rest = some (refused (unreadable status))
  judge deadline time (ok missing_stream) rest = some (refused no_stream)
  judge deadline time (ok (streamed processing)) rest =
      if ltb deadline (time + full_scan_poll_interval_ms)
      then some (refused still_processing)
      else rest
  judge deadline time (ok (streamed (reason why))) rest = some (refused (stream_reason why))
  judge deadline time (ok (streamed (artifacts found))) rest = some (evaluate found)

  -- the loop from the k-th read on, for as many reads as the fuel allows
  unfoldable pub poll : ℕ → ℕ → ℕ → Option Evidence
  poll zero deadline k = none
  poll (suc fuel) deadline k =
      let rest = poll fuel deadline (suc k) in judge deadline (reads.now k) (reads.attempt k) rest

  -- `readFullScanEvidence`, begun at a time
  unfoldable pub read_full_scan_evidence : ℕ → ℕ → Option Evidence
  read_full_scan_evidence fuel began = poll fuel (began + full_scan_read_timeout_ms) 0

-- `StagedScanVerdict`; a refusal and the alerts are kept in place of the text that shows them
pub record ScanVerdict : Type 0 where
  pub blocking_alerts : ℕ
  pub artifact_count : ℕ
  pub error_alerts : List PolicyAlert
  pub ok : Bool
  pub total_alerts : ℕ
  pub scan_id : Option Text
  pub warn_alerts : List PolicyAlert

-- `scanRefused`
abbrev pub scan_refused : ScanVerdict
scan_refused = record {
  blocking_alerts = 0;
  artifact_count = 0;
  error_alerts = [];
  ok = false;
  total_alerts = 0;
  scan_id = none;
  warn_alerts = [];
}

abbrev pub passes_threat : Option Bool → Bool
passes_threat none = true
passes_threat (some passed) = passed

-- The end of `scanStagedEntryDetailed`, behind the evidence; the local scan for threats is a
-- parameter: `none` where it was not asked for.
unfoldable pub verdict_of : Text → Option Bool → Evidence → ScanVerdict
verdict_of scan_id threat (refused why) = scan_refused
verdict_of scan_id threat (evidence found summary) =
    let alerts = npm_blocking_malware_alerts summary in
    record {
      blocking_alerts = length alerts;
      artifact_count = length found;
      error_alerts = summary.error;
      ok = length alerts == 0 && passes_threat threat;
      total_alerts = summary.total;
      scan_id = some scan_id;
      warn_alerts = summary.warn;
    }
