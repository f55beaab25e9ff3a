-- ===== src/Tests/StagedRuns.antt =====
-- npm/scan/staged.mts
use socket_scan_patterns.Failure.{ok, err, tarball_mismatch, scan_identity}
use socket_scan_patterns.Json.{whole, prop, is_json_object, safe_count, text_of}
use socket_scan_patterns.NpmScan.Receipt.{
  NpmRemoteScanReceipt, has_passing_npm_scan_policy_counts, parse_npm_remote_scan_receipt,
  receipt_checks,
}
use socket_scan_patterns.NpmScan.Staged.Build.{cleared, get-npm_scan_source_build_environment}
use socket_scan_patterns.NpmScan.Staged.Credentials.{IsCredential}
use socket_scan_patterns.NpmScan.Staged.History.{
  Allowed, run_scan_ci-All, run_scan_ci-settles, deleted,
}
use socket_scan_patterns.NpmScan.Staged.Identity.{IsAccepted, receipt_from_iff}
use socket_scan_patterns.NpmScan.Staged.Run.{
  head_sha, subject, download, pack, read_file, safe_delete, cleanup_pack, History, ScanCiDeps,
  obtain, same_sha1, check_bytes, use_tarball, tarball_of, settle, scan_stage, check_subject,
  check_head, run_scan_ci,
}
use socket_scan_patterns.NpmScan.Staged.{
  Environment, Strings, ScanCiConfig, StagedScanVerdict, required_env, positive_integer,
  config_from, identity_from, read_scan_ci_config, receipt_from, npm_scan_source_build_environment,
  is_credential,
}
use socket_scan_patterns.Prelude.{
  ◌⊎◌, ℕ, ◌+◌, ◌*◌, ◌-◌, true, false, [], ◌∷◌, none, some, All, ◌≡◌, refl,
}
use socket_scan_patterns.Regex.{test}
use socket_scan_patterns.TextSet.{has, get}
use socket_scan_patterns.Text.{Text, codes, text_eq, trim}

abbrev decimal : ℕ → Text → ℕ
decimal n [] = n
decimal n (c ∷ cs) = decimal (n * 10 + (c - b'0')) cs

abbrev pub strings : Strings
strings = record {
  to_upper_case = λ t. t;
  to_lower_case = λ t. t;
  to_number = λ t. whole (decimal 0 t);
  imported_credential_names = codes "GH_TOKEN" ∷ codes "NPM_TOKEN" ∷ [];
}

abbrev pub sha : Text
sha = codes "0123456789abcdef0123456789abcdef01234567"

abbrev stage : Text
stage = codes "01234567-89ab-cdef-0123-456789abcdef"

abbrev pub environment : Text → Environment
environment source =
    (codes "SCAN_SOURCE_SHA", some source)
    ∷ (codes "SCAN_STAGE_SHA1", some sha)
    ∷ (codes "SCAN_STAGE_ID", some stage)
    ∷ (codes "GITHUB_RUN_ATTEMPT", some (codes "2"))
    ∷ (codes "GITHUB_RUN_ID", some (codes "34"))
    ∷ (codes "SCAN_PUBLISH_RUN_ID", some (codes " 33 "))
    ∷ (codes "SCAN_PACKAGE", some (codes "p"))
    ∷ (codes "SCAN_VERSION", some (codes "1.0.0"))
    ∷ (codes "GITHUB_REPOSITORY", some (codes "o/r"))
    ∷ []

abbrev pub config : ScanCiConfig
config = record {
  current_run_attempt = whole 2;
  current_run_id = whole 34;
  original_publish_run_id = whole 33;
  package_name = codes "p";
  package_version = codes "1.0.0";
  repository = codes "o/r";
  source_sha = sha;
  stage_id = stage;
  stage_sha1 = sha;
}

pub config_run :
    (read_scan_ci_config strings (environment sha) ≡ ok config)
    × (read_scan_ci_config strings (environment (codes "HEAD")) ≡ err scan_identity)
unfolding read_scan_ci_config identity_from config_from positive_integer required_env trim get
    text_eq safe_count
config_run = (refl, refl)

abbrev passing : StagedScanVerdict
passing = record {
  blocking_alerts = whole 0;
  detail = codes "ok";
  error_alerts = 1;
  ok = true;
  total_alerts = whole 3;
  scan_id = some (codes "s1");
  warn_alerts = 2;
}

receipt_from_run : (receipt : NpmRemoteScanReceipt) × (receipt_from config passing ≡ ok receipt)
unfolding receipt_from parse_npm_remote_scan_receipt receipt_checks
    has_passing_npm_scan_policy_counts prop is_json_object safe_count text_of text_eq
receipt_from_run = (_, refl)

receipt_from_iff_example : IsAccepted passing true (some (codes "s1"))
receipt_from_iff_example =
    (receipt_from_iff strings (environment sha) config passing config_run.0).0 receipt_from_run

-- npm does not serve the tarball, and the source is packed
abbrev deps : Text → ScanCiDeps
deps sha1 = record {
  head_sha = λ h. ok sha;
  subject = λ h. ok (codes "p", codes "1.0.0");
  download = λ id h. ok none;
  pack = λ name version h. ok (some (codes "p.tgz"));
  file_sha1 = λ path h. ok sha1;
  scan = λ name version shasum tarball h. ok passing;
  write_receipt = λ receipt h. ok tt;
  safe_delete = λ path h. ok tt;
  cleanup_pack = some (λ h. ok tt);
}

-- a package with another hash is deleted, not scanned
mismatch_run : run_scan_ci config (deps (codes "00")) [] ≡ (
  err (tarball_mismatch (codes "00") sha),
  cleanup_pack
      ∷ safe_delete (codes "p.tgz")
      ∷ read_file (codes "p.tgz")
      ∷ pack (codes "p") (codes "1.0.0")
      ∷ download stage
      ∷ subject
      ∷ head_sha
      ∷ [],
)
unfolding run_scan_ci check_head check_subject scan_stage obtain use_tarball check_bytes same_sha1
    settle text_eq
mismatch_run = refl

run_scan_ci-All_example : All (Allowed config (deps sha) []) (run_scan_ci config (deps sha) []).1
run_scan_ci-All_example = run_scan_ci-All config (deps sha)

run_scan_ci-settles_example :
    (worked : History) × ((run_scan_ci config (deps sha) []).1
      ≡ cleanup_pack
        ∷ deleted config
            (deps sha)
            (tarball_of (obtain config (deps sha) (subject ∷ head_sha ∷ [])).0)
            worked)
run_scan_ci-settles_example = run_scan_ci-settles config (deps sha) [] refl refl

credential_run :
    (is_credential strings (codes "NPM_CONFIG_//r/:_AUTHTOKEN") ≡ true)
    × (is_credential strings (codes "GIT_CONFIG_KEY_12") ≡ true)
    × (is_credential strings (codes "GIT_CONFIG_KEY_") ≡ false)
    × (is_credential strings (codes "SOCKET_API_KEY") ≡ true)
    × (is_credential strings (codes "GH_TOKEN") ≡ true)
    × (is_credential strings (codes "PATH") ≡ false)
unfolding is_credential test has text_eq
credential_run = (refl, refl, refl, refl, refl, refl)

abbrev build_environment : Environment
build_environment = (codes "GH_TOKEN", some (codes "x")) ∷ (codes "PATH", some (codes "/bin")) ∷ []

get-npm_scan_source_build_environment_example :
    (IsCredential strings (codes "PATH")
      × (get (codes "PATH") (npm_scan_source_build_environment strings build_environment)
          ≡ cleared (get (codes "PATH") build_environment)))
    ⊎ ((¬ IsCredential strings (codes "PATH"))
        × (get (codes "PATH") (npm_scan_source_build_environment strings build_environment)
            ≡ get (codes "PATH") build_environment))
get-npm_scan_source_build_environment_example =
    get-npm_scan_source_build_environment strings build_environment (codes "PATH")
