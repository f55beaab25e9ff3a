-- ===== src/NpmScan/Receipt.antt =====
-- scripts/fleet/npm/scan/receipt.mts: what a publish run says of its source, and the receipt of a
-- remote scan.
pub mod Source
pub mod Counts
pub mod Binding
pub mod Names
use Source.{is_sha, exactly}
use socket_scan_patterns.Failure.{Result, ok, err, receipt_identity, receipt_malformed}
use socket_scan_patterns.Json.{
  Json, null, boolean, number, string, array, object, Fields, no_fields, Number, whole, prop,
  is_json_object, max_safe_integer, safe_count, text_of,
}
use socket_scan_patterns.Prelude.{
  ℕ, zero, suc, ◌-◌, Bool, true, false, not, ◌&&◌, ◌||◌, List, [], ◌∷◌, ◌++◌, Option, none, some,
  ◌==◌, leb, if◌then◌else◌, every,
}
use socket_scan_patterns.Text.Numbers.{number_text}
use socket_scan_patterns.Text.{Text, codes, text_eq, is_digit}

-- `NPM_SCAN_RECEIPT_ARTIFACT_PREFIX`
abbrev pub npm_scan_receipt_artifact_prefix : Text
npm_scan_receipt_artifact_prefix = codes "npm-stage-scan-receipt"

-- `STAGE_ID_RE`
abbrev pub is_stage_id : Text → Bool
is_stage_id = exactly 36 (λ c. is_digit c || (leb b'a' c && leb c b'f') || c == b'-')

-- `recordOf`
abbrev pub or_empty : Option Fields → Fields
or_empty none = no_fields
or_empty (some fields) = fields

abbrev pub record_of : Option Json → Fields
record_of value = or_empty (is_json_object value)

-- `x === t` for a text
abbrev pub same_text : Text → Option Text → Bool
same_text t none = false
same_text t (some s) = text_eq s t

abbrev pub is_zero : Option Json → Bool
is_zero (some (number (whole zero))) = true
is_zero _ = false

-- the comparisons of the counts
abbrev pub counts_fit : Option ℕ → Option ℕ → Option ℕ → Bool
counts_fit (some errors) (some total) (some warnings) =
    leb errors total && leb warnings (total - errors)
counts_fit _ _ _ = false

-- `hasPassingNpmScanPolicyCounts`
unfoldable pub has_passing_npm_scan_policy_counts : Option Json → Bool
has_passing_npm_scan_policy_counts value =
    let policy = record_of value in
    same_text (codes "malware") (text_of (prop (codes "gate") policy))
    && is_zero (prop (codes "blockingAlerts") policy)
    && counts_fit (safe_count (prop (codes "errorAlerts") policy))
        (safe_count (prop (codes "totalAlerts") policy))
        (safe_count (prop (codes "warnAlerts") policy))

-- `Number.isSafeInteger(n) && n > 0`
abbrev pub is_positive : Option ℕ → Bool
is_positive (some (suc n)) = true
is_positive _ = false

-- the value of a positive safe integer
abbrev pub value_of : Option ℕ → ℕ
value_of none = 0
value_of (some n) = n

-- `npmScanReceiptArtifactName`
unfoldable pub npm_scan_receipt_artifact_name : Number → Number → Result Text
npm_scan_receipt_artifact_name run_id run_attempt =
    let run = safe_count (some (number run_id)) in
    let attempt = safe_count (some (number run_attempt)) in
    if not (is_positive run) || not (is_positive attempt)
    then err receipt_identity
    else ok (
        npm_scan_receipt_artifact_prefix
        ++ (codes "-"
            ++ (number_text (value_of run) ++ (codes "-" ++ number_text (value_of attempt)))))

-- `typeof x === 'string' && x !== ''`
abbrev is_given : Option Text → Bool
is_given (some (c ∷ cs)) = true
is_given _ = false

abbrev passes : (Text → Bool) → Option Text → Bool
passes test none = false
passes test (some t) = test t

abbrev is_two : Option Json → Bool
is_two (some (number (whole n))) = n == 2
is_two _ = false

-- the array `checks` of `parseNpmRemoteScanReceipt`
unfoldable pub receipt_checks : Fields → List Bool
receipt_checks receipt =
    let text_at = λ (key : Text). text_of (prop key receipt) in
    let count_at = λ (key : Text). safe_count (prop key receipt) in
    is_two (prop (codes "schemaVersion") receipt)
    ∷ passes (λ t. true) (text_at (codes "repository"))
    ∷ same_text (codes "publish-npm.yml") (text_at (codes "workflow"))
    ∷ is_positive (count_at (codes "runId"))
    ∷ is_positive (count_at (codes "runAttempt"))
    ∷ passes is_sha (text_at (codes "sourceSha"))
    ∷ is_positive (count_at (codes "publishRunId"))
    ∷ is_given (text_at (codes "packageName"))
    ∷ is_given (text_at (codes "packageVersion"))
    ∷ passes is_stage_id (text_at (codes "stageId"))
    ∷ passes is_sha (text_at (codes "stageSha1"))
    ∷ is_given (text_at (codes "scanId"))
    ∷ same_text (codes "passed") (text_at (codes "verdict"))
    ∷ has_passing_npm_scan_policy_counts (prop (codes "policy") receipt)
    ∷ []

-- `NpmRemoteScanReceipt`, as the parser makes it: the members that it copies, of which the checks
-- say what they are
pub record NpmRemoteScanReceipt : Type 0 where
  pub schema_version : Option Json
  pub repository : Option Json
  pub workflow : Option Json
  pub run_id : Option Json
  pub run_attempt : Option Json
  pub source_sha : Option Json
  pub publish_run_id : Option Json
  pub package_name : Option Json
  pub package_version : Option Json
  pub stage_id : Option Json
  pub stage_sha1 : Option Json
  pub scan_id : Option Json
  pub verdict : Option Json
  pub gate : Option Json
  pub blocking_alerts : Option Json
  pub error_alerts : Option Json
  pub total_alerts : Option Json
  pub warn_alerts : Option Json

-- `parsed`
abbrev pub parsed_receipt : Fields → NpmRemoteScanReceipt
parsed_receipt receipt =
    let policy = record_of (prop (codes "policy") receipt) in
    record {
      schema_version = prop (codes "schemaVersion") receipt;
      repository = prop (codes "repository") receipt;
      workflow = prop (codes "workflow") receipt;
      run_id = prop (codes "runId") receipt;
      run_attempt = prop (codes "runAttempt") receipt;
      source_sha = prop (codes "sourceSha") receipt;
      publish_run_id = prop (codes "publishRunId") receipt;
      package_name = prop (codes "packageName") receipt;
      package_version = prop (codes "packageVersion") receipt;
      stage_id = prop (codes "stageId") receipt;
      stage_sha1 = prop (codes "stageSha1") receipt;
      scan_id = prop (codes "scanId") receipt;
      verdict = prop (codes "verdict") receipt;
      gate = prop (codes "gate") policy;
      blocking_alerts = prop (codes "blockingAlerts") policy;
      error_alerts = prop (codes "errorAlerts") policy;
      total_alerts = prop (codes "totalAlerts") policy;
      warn_alerts = prop (codes "warnAlerts") policy;
    }

-- `parseNpmRemoteScanReceipt`
unfoldable pub parse_npm_remote_scan_receipt : Json → Result NpmRemoteScanReceipt
parse_npm_remote_scan_receipt value =
    let receipt = record_of (some value) in
    if every (λ b. b) (receipt_checks receipt)
    then ok (parsed_receipt receipt)
    else err receipt_malformed
