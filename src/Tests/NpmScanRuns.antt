-- ===== src/Tests/NpmScanRuns.antt =====
-- npm/scan
use socket_scan_patterns.Failure.{ok, err, receipt_identity}
use socket_scan_patterns.Json.{
  Json, null, number, string, object, Fields, no_fields, field, whole, minus, prop, keys,
  safe_count, text_of, is_json_object,
}
use socket_scan_patterns.NpmScan.Ndjson.Lines.{read_lines, read_full_scan_ndjson-lines}
use socket_scan_patterns.NpmScan.Ndjson.Protocol.{
  IsArtifactStream, more, scores, values_of, read_lines-artifacts_iff,
}
use socket_scan_patterns.NpmScan.Ndjson.{
  Platform, text, unsupported, start, verdict, FullScanStreamResult, artifacts, processing, reason,
  malformed_ndjson, misplaced_envelope, mixed_evidence, malformed_scores, after_scores,
  unsupported_chunk, read_full_scan_ndjson, read_chunks, take_chunk, finish, drain, consume_line,
  consume_text, consume_parsed, consume_value, take_value, without_return,
  is_matching_processing_envelope, scores_record_is_valid,
}
use socket_scan_patterns.NpmScan.Receipt.Binding.{IsBound, verify_npm_scan_source_binding_iff}
use socket_scan_patterns.NpmScan.Receipt.Counts.{IsPassing, has_passing_npm_scan_policy_counts_iff}
use socket_scan_patterns.NpmScan.Receipt.Names.{npm_scan_receipt_artifact_name_injective}
use socket_scan_patterns.NpmScan.Receipt.Source.{
  SourceBinding, NpmPublishSourceEvidence, parse_npm_publish_source_evidence, evidence_from,
  verify_npm_scan_source_binding, check_binding, tied_by,
}
use socket_scan_patterns.NpmScan.Receipt.{
  has_passing_npm_scan_policy_counts, npm_scan_receipt_artifact_name,
}
use socket_scan_patterns.Prelude.{
  ℕ, true, false, List, [], ◌∷◌, Option, none, some, ◌≡◌, refl, length, map, ◌==◌, if◌then◌else◌,
  leb→le,
}
use socket_scan_patterns.Text.Numbers.{number_text, digits_back}
use socket_scan_patterns.Text.Lines.{split_lines}
use socket_scan_patterns.Text.Order.{sort_texts, text_compare}
use socket_scan_patterns.Text.{Text, codes, text_eq, starts_with, is_space, join}
use socket_scan_patterns.TextSet.{put, has}

-- A platform that reads three values.
abbrev scores_value : Json
scores_value = object (
    field (codes "_type") (string (codes "scores"))
      (field (codes "value") (object no_fields) no_fields))

abbrev envelope : Json
envelope = object (
    field (codes "status") (string (codes "processing"))
      (field (codes "id") (string (codes "s1")) no_fields))

abbrev toy_parse : Text → Option Json
toy_parse (c ∷ []) =
    if c == b'a'
    then some null
    else if c == b's'
    then some scores_value
    else if c == b'p'
    then some envelope
    else none
toy_parse _ = none

abbrev toy : Platform
toy = record {
  json_parse = toy_parse;
  byte_length = length;
  Decoder = Unit;
  decode = λ d b. (b, d);
  flush = λ d. [];
}

abbrev read : Text → FullScanStreamResult
read t = read_full_scan_ndjson toy (codes "s1") tt (text t ∷ [])

read_runs :
    (read (codes "a\r\n\na\ns\n") ≡ artifacts (null ∷ null ∷ []))
    × (read (codes "p") ≡ processing)
    × (read (codes "a\np") ≡ reason misplaced_envelope)
    × (read (codes "p\na") ≡ reason mixed_evidence)
    × (read (codes "s\ns") ≡ reason malformed_scores)
    × (read (codes "s\na") ≡ reason after_scores)
    × (read (codes "?") ≡ reason malformed_ndjson)
    × (read_full_scan_ndjson toy (codes "s1") tt (text (codes "a") ∷ unsupported ∷ [])
        ≡ reason unsupported_chunk)
unfolding read_full_scan_ndjson read_chunks take_chunk finish drain consume_line consume_text
    consume_parsed consume_value take_value without_return is_matching_processing_envelope
    scores_record_is_valid prop keys text_eq sort_texts join text_compare
read_runs = (refl, refl, refl, refl, refl, refl, refl, refl)

abbrev chunks : List Text
chunks = codes "a\n" ∷ codes "a\ns" ∷ []

read_full_scan_ndjson-lines_example :
    read_full_scan_ndjson toy (codes "s1") tt (map text chunks)
    ≡ verdict (read_lines toy (codes "s1") (codes "a" ∷ codes "a" ∷ codes "s" ∷ []) start)
read_full_scan_ndjson-lines_example =
    read_full_scan_ndjson-lines toy (codes "s1") chunks tt refl (leb→le 5 _ refl)
      (leb→le 1 _ refl, (leb→le 1 _ refl, (leb→le 1 _ refl, tt)))

stream : IsArtifactStream toy (codes "s1") (null ∷ scores_value ∷ []) (null ∷ [])
unfolding is_matching_processing_envelope scores_record_is_valid prop keys text_eq sort_texts join
    text_compare
stream = more null _ _ refl refl (scores scores_value refl refl)

values_run :
    values_of toy (codes "s1") (codes "a" ∷ [] ∷ codes "s" ∷ []) ≡ some (null ∷ scores_value ∷ [])
unfolding without_return
values_run = refl

read_lines-artifacts_iff_example :
    verdict (read_lines toy (codes "s1") (codes "a" ∷ [] ∷ codes "s" ∷ []) start)
    ≡ artifacts (null ∷ [])
read_lines-artifacts_iff_example =
    (read_lines-artifacts_iff toy (codes "s1") (codes "a" ∷ [] ∷ codes "s" ∷ []) (null ∷ [])).1
      (null ∷ scores_value ∷ [], values_run, stream)

-- a verdict
abbrev count : ℕ → Json
count n = number (whole n)

abbrev counts : ℕ → ℕ → ℕ → Fields
counts errors total warnings = field (codes "gate") (string (codes "malware")) (
    field (codes "blockingAlerts") (count 0) (
      field (codes "errorAlerts") (count errors) (
        field (codes "totalAlerts") (count total)
          (field (codes "warnAlerts") (count warnings) no_fields))))

counts_run :
    (has_passing_npm_scan_policy_counts (some (object (counts 1 3 2))) ≡ true)
    × (has_passing_npm_scan_policy_counts (some (object (counts 2 3 2))) ≡ false)
    × (has_passing_npm_scan_policy_counts none ≡ false)
unfolding has_passing_npm_scan_policy_counts prop is_json_object safe_count text_of text_eq
counts_run = (refl, refl, refl)

has_passing_npm_scan_policy_counts_iff_example : IsPassing (counts 1 3 2)
unfolding is_json_object
has_passing_npm_scan_policy_counts_iff_example =
    (has_passing_npm_scan_policy_counts_iff (some (object (counts 1 3 2)))).0 counts_run.0

name_run :
    (npm_scan_receipt_artifact_name (whole 12) (whole 3) ≡ ok (codes "npm-stage-scan-receipt-12-3"))
    × (npm_scan_receipt_artifact_name (whole 0) (whole 3) ≡ err receipt_identity)
    × (npm_scan_receipt_artifact_name (whole 1) (minus 3) ≡ err receipt_identity)
unfolding npm_scan_receipt_artifact_name safe_count number_text digits_back
name_run = (refl, refl, refl)

npm_scan_receipt_artifact_name_injective_example : (whole 12 ≡ whole 12) × (whole 3 ≡ whole 3)
npm_scan_receipt_artifact_name_injective_example =
    npm_scan_receipt_artifact_name_injective (whole 12) (whole 3) (whole 12) (whole 3)
      (codes "npm-stage-scan-receipt-12-3") name_run.0 name_run.0

-- a source
abbrev sha : Text
sha = codes "0123456789abcdef0123456789abcdef01234567"

abbrev head_sha : Text
head_sha = codes "ffffffffffffffffffffffffffffffffffffffff"

abbrev resumed_source : SourceBinding
resumed_source = record {
  source_sha = sha;
  run_head = head_sha;
  parents = [];
  logs =
      codes
        "x [bump] resuming reserved v1.0.0 from 0123456.\n[reserved-source] 0123456789abcdef0123456789abcdef01234567\n";
  version = none;
}

source_run : verify_npm_scan_source_binding resumed_source ≡ ok tt
unfolding verify_npm_scan_source_binding parse_npm_publish_source_evidence evidence_from
    check_binding tied_by text_eq starts_with is_space put has split_lines
source_run = refl

verify_npm_scan_source_binding_iff_example :
    (evidence : NpmPublishSourceEvidence) × (parse_npm_publish_source_evidence resumed_source.logs
        none
      ≡ ok evidence)
    × IsBound resumed_source evidence
verify_npm_scan_source_binding_iff_example =
    (verify_npm_scan_source_binding_iff resumed_source).0 source_run
