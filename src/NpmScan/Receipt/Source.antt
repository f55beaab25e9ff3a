-- ===== src/NpmScan/Receipt/Source.antt =====
-- What the logs of a publish run say of the source commit.
use socket_scan_patterns.Failure.{
  Result, ok, err, no_unique_source, prepared_source_mismatch, no_release_receipt,
  unreserved_source, ◌>>=◌,
}
use socket_scan_patterns.Prelude.{
  ℕ, Bool, true, false, not, ◌&&◌, ◌||◌, List, [], ◌∷◌, ◌++◌, Option, none, some, ◌==◌, leb,
  if◌then◌else◌, length, map, keep, every,
}
use socket_scan_patterns.Regex.Notation.{times, at_most, ◌⨟◌, word, spaces, plus, is_line_break}
use socket_scan_patterns.Regex.{
  Rx, Match, unit, star, capture, line_start, line_end, all_matches, group_text, test,
}
use socket_scan_patterns.Text.Lines.{split_lines}
use socket_scan_patterns.Text.{Text, codes, is_digit, is_space, starts_with, text_eq}
use socket_scan_patterns.TextSet.{has, put}

abbrev pub is_hex : ℕ → Bool
is_hex c = is_digit c || (leb b'a' c && leb c b'f')

-- /^[…]{n}$/
abbrev pub exactly : ℕ → (ℕ → Bool) → Text → Bool
exactly n test_of t = every test_of t && length t == n

-- `SHA_RE`
abbrev pub is_sha : Text → Bool
is_sha = exactly 40 is_hex

-- /^[a-f\d]{40}$/iu
abbrev pub is_any_case_sha : Text → Bool
is_any_case_sha = exactly 40 (λ c. is_hex c || (leb b'A' c && leb c b'F'))

-- `.*`
abbrev rest_of_line : Rx
rest_of_line = star (unit (λ c. not (is_line_break c)))

-- `([a-f\d]{7,40})` as group n
abbrev short_sha : ℕ → Rx
short_sha n = capture n (times 7 (unit is_hex) ⨟ at_most 33 (unit is_hex))

-- `(\d+\.\d+\.\d+)` as group 1
abbrev version_number : Rx
version_number = capture 1 (
    plus (unit is_digit)
    ⨟ word (codes ".")
    ⨟ plus (unit is_digit)
    ⨟ word (codes ".")
    ⨟ plus (unit is_digit))

-- /^.*\[bump\].* committed ([a-f\d]{7,40}) .*via the release App\.$/gmu
abbrev committed_line : Rx
committed_line =
    line_start
    ⨟ rest_of_line
    ⨟ word (codes "[bump]")
    ⨟ rest_of_line
    ⨟ word (codes " committed ")
    ⨟ short_sha 1
    ⨟ word (codes " ")
    ⨟ rest_of_line
    ⨟ word (codes "via the release App.")
    ⨟ line_end

-- /^.*\[bump\] resuming reserved \S+ from ([a-f\d]{7,40})\.$/gmu
abbrev resumed_line : Rx
resumed_line =
    line_start
    ⨟ rest_of_line
    ⨟ word (codes "[bump] resuming reserved ")
    ⨟ plus (unit (λ c. not (is_space c)))
    ⨟ word (codes " from ")
    ⨟ short_sha 1
    ⨟ word (codes ".")
    ⨟ line_end

-- /^.*Bump already applied: releasing prepared version (\d+\.\d+\.\d+)\.$/gmu
abbrev prepared_line : Rx
prepared_line =
    line_start
    ⨟ rest_of_line
    ⨟ word (codes "Bump already applied: releasing prepared version ")
    ⨟ version_number
    ⨟ word (codes ".")
    ⨟ line_end

-- /^.*\[release-branch\] opened npm-publish-v(\d+\.\d+\.\d+) at ([a-f\d]{7,40})\.$/gmu
abbrev branch_line : Rx
branch_line =
    line_start
    ⨟ rest_of_line
    ⨟ word (codes "[release-branch] opened npm-publish-v")
    ⨟ version_number
    ⨟ word (codes " at ")
    ⨟ short_sha 2
    ⨟ word (codes ".")
    ⨟ line_end

-- the kinds of `NpmPublishSourceEvidence`
pub data EvidenceKind : Type 0 where
  committed prepared resumed : EvidenceKind

-- `NpmPublishSourceEvidence`
pub record NpmPublishSourceEvidence : Type 0 where
  pub kind : EvidenceKind
  pub prefix : Text

abbrev kind_text : EvidenceKind → Text
kind_text committed = codes "committed"
kind_text prepared = codes "prepared"
kind_text resumed = codes "resumed"

abbrev evidence_of : EvidenceKind → List Match → List NpmPublishSourceEvidence
evidence_of kind = map (λ m. record { kind = kind; prefix = group_text 1 m })

-- the map by `${kind}:${prefix}`
abbrev by_key :
    List NpmPublishSourceEvidence
    → List (Text × NpmPublishSourceEvidence)
    → List (Text × NpmPublishSourceEvidence)
by_key [] m = m
by_key (e ∷ es) m = by_key es (put (kind_text e.kind ++ (codes ":" ++ e.prefix)) e m)

-- the only value of a map, where there are no prepared versions
abbrev only_ordinary :
    List (Text × NpmPublishSourceEvidence) → List Text → Result NpmPublishSourceEvidence
only_ordinary ((_, e) ∷ []) [] = ok e
only_ordinary _ _ = err no_unique_source

-- `x !== undefined && x !== y`
abbrev differs_from : Option Text → Text → Bool
differs_from none y = false
differs_from (some x) y = not (text_eq y x)

abbrev or_else : Option Text → Text → Text
or_else none y = y
or_else (some x) y = x

abbrev only_marker : List Match → Result NpmPublishSourceEvidence
only_marker (m ∷ []) = ok (record { kind = prepared; prefix = group_text 2 m })
only_marker _ = err no_unique_source

-- the end of `parseNpmPublishSourceEvidence`, for a release without a bump commit
unfoldable pub prepared_evidence : Text → Option Text → List Text → Result NpmPublishSourceEvidence
unfolding all_matches
prepared_evidence logs version (prepared_version ∷ []) =
    if differs_from version prepared_version
    then err no_unique_source
    else only_marker (
        keep (λ m. text_eq (group_text 1 m) (or_else version prepared_version))
          (all_matches branch_line logs))
prepared_evidence logs version _ = err no_unique_source

-- the branch on `ordinary.length > 0`
unfoldable pub evidence_from :
    List NpmPublishSourceEvidence → List Text → Text → Option Text → Result NpmPublishSourceEvidence
evidence_from [] versions logs version = prepared_evidence logs version versions
evidence_from (e ∷ es) versions logs version = only_ordinary (by_key (e ∷ es) []) versions

-- `parseNpmPublishSourceEvidence`
unfoldable pub parse_npm_publish_source_evidence :
    Text → Option Text → Result NpmPublishSourceEvidence
unfolding all_matches
parse_npm_publish_source_evidence logs version =
    evidence_from
      (evidence_of committed (all_matches committed_line logs)
        ++ evidence_of resumed (all_matches resumed_line logs))
      (map (group_text 1) (all_matches prepared_line logs)) logs version

-- `verifyNpmPreparedSourceBinding`
unfoldable pub verify_npm_prepared_source_binding : Text → Text → Result (Unit {0})
verify_npm_prepared_source_binding source_sha run_head =
    if not (is_any_case_sha source_sha) || not (text_eq source_sha run_head)
    then err prepared_source_mismatch
    else ok tt

-- /^\s*\* branch\s+SHA\s+->\s+FETCH_HEAD\s*$/mu
abbrev fetched_line : Text → Rx
fetched_line source_sha =
    line_start
    ⨟ spaces
    ⨟ word (codes "* branch")
    ⨟ plus (unit is_space)
    ⨟ word source_sha
    ⨟ plus (unit is_space)
    ⨟ word (codes "->")
    ⨟ plus (unit is_space)
    ⨟ word (codes "FETCH_HEAD")
    ⨟ spaces
    ⨟ line_end

-- `fetched.test(logs)`
unfoldable pub is_fetched : Text → Text → Bool
unfolding test
is_fetched source_sha logs = test (fetched_line source_sha) logs

-- `logs.split(/\r?\n/).includes('[reserved-source] SHA')`
abbrev pub is_reserved : Text → Text → Bool
is_reserved source_sha logs = has (codes "[reserved-source] " ++ source_sha) (split_lines logs)

-- `parents.length === 1 && parents[0] === runHead`
abbrev pub is_only_parent : Text → List Text → Bool
is_only_parent run_head (parent ∷ []) = text_eq parent run_head
is_only_parent run_head _ = false

abbrev pub is_kind : EvidenceKind → EvidenceKind → Bool
is_kind committed committed = true
is_kind prepared prepared = true
is_kind resumed resumed = true
is_kind _ _ = false

-- the configuration of `verifyNpmScanSourceBinding`
pub record SourceBinding : Type 0 where
  pub source_sha : Text
  pub run_head : Text
  pub parents : List Text
  pub logs : Text
  pub version : Option Text

-- `verifyNpmScanSourceBinding` behind the hashes
unfoldable pub tied_by : SourceBinding → EvidenceKind → Result (Unit {0})
tied_by b kind =
    if is_kind kind prepared
    then verify_npm_prepared_source_binding b.source_sha b.run_head
    else if text_eq b.source_sha b.run_head
    then ok tt
    else if is_kind kind resumed && is_reserved b.source_sha b.logs
    then ok tt
    else if is_kind kind committed
        && is_only_parent b.run_head b.parents
        && is_fetched b.source_sha b.logs
    then ok tt
    else err unreserved_source

-- `verifyNpmScanSourceBinding` behind the evidence
unfoldable pub check_binding : SourceBinding → NpmPublishSourceEvidence → Result (Unit {0})
check_binding b evidence =
    if not (is_sha b.source_sha)
      || not (is_sha b.run_head)
      || not (starts_with evidence.prefix b.source_sha)
    then err no_release_receipt
    else tied_by b evidence.kind

-- `verifyNpmScanSourceBinding`
unfoldable pub verify_npm_scan_source_binding : SourceBinding → Result (Unit {0})
verify_npm_scan_source_binding b = do
  evidence ← parse_npm_publish_source_evidence b.logs b.version
  check_binding b evidence
