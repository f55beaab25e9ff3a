-- ===== src/NpmScan/Staged.antt =====
-- scripts/fleet/npm/scan/staged.mts: the configuration of a scan in CI, the environment of a source
-- build, and the receipt.
pub mod Identity
pub mod Run
pub mod History
pub mod Build
pub mod Credentials
use socket_scan_patterns.Failure.{
  Result, ok, err, missing_input, not_positive, scan_identity, scan_refused, ◌>>=◌,
}
use socket_scan_patterns.Json.{
  Json, number, string, object, Fields, no_fields, field, Number, whole, safe_count,
}
use socket_scan_patterns.NpmScan.Receipt.Source.{is_sha}
use socket_scan_patterns.NpmScan.Receipt.{
  is_stage_id, is_positive, NpmRemoteScanReceipt, parse_npm_remote_scan_receipt,
}
use socket_scan_patterns.Prelude.{
  ℕ, zero, suc, Bool, true, false, not, ◌&&◌, ◌||◌, List, [], ◌∷◌, ◌++◌, Option, none, some, ◌==◌,
  ◌-◌, take, map, if◌then◌else◌, length, every,
}
use socket_scan_patterns.Regex.Notation.{◌⨟◌, ◌⊕◌, word, plus, maybe, is_line_break}
use socket_scan_patterns.Regex.{Rx, empty, unit, star, text_start, text_end, test}
use socket_scan_patterns.TextSet.{has, get}
use socket_scan_patterns.Text.{Text, codes, text_eq, starts_with, is_digit, trim}

-- an environment: `undefined` is `none`
abbrev pub Environment : Type 0
Environment = List (Text × Option Text)

-- `(?:…)` of words
abbrev one_of : List Text → Rx
one_of [] = empty
one_of (w ∷ []) = word w
one_of (w ∷ v ∷ ws) = word w ⊕ one_of (v ∷ ws)

-- `GIT_CREDENTIAL_CONFIG_ENV_NAME_RE`: /^GIT_CONFIG_(?:COUNT|KEY_\d+|VALUE_\d+)$/u
abbrev pub git_credential_config_env_name : Rx
git_credential_config_env_name =
    text_start
    ⨟ word (codes "GIT_CONFIG_")
    ⨟ (word (codes "COUNT")
        ⊕ (word (codes "KEY_") ⨟ plus (unit is_digit))
        ⊕ (word (codes "VALUE_") ⨟ plus (unit is_digit)))
    ⨟ text_end

-- `NPM_CREDENTIAL_CONFIG_ENV_NAME_RE`:
-- /^NPM_CONFIG_.*(?:_AUTH(?:TOKEN)?|_GLOBALCONFIG|_PASSWORD|_USERCONFIG|_USERNAME)$/u
abbrev pub npm_credential_config_env_name : Rx
npm_credential_config_env_name =
    text_start
    ⨟ word (codes "NPM_CONFIG_")
    ⨟ star (unit (λ c. not (is_line_break c)))
    ⨟ ((word (codes "_AUTH") ⨟ maybe (word (codes "TOKEN")))
        ⊕ one_of (
            codes "_GLOBALCONFIG"
            ∷ codes "_PASSWORD"
            ∷ codes "_USERCONFIG"
            ∷ codes "_USERNAME"
            ∷ []))
    ⨟ text_end

-- The names that the source declares itself, beside those of the modules that it imports.
abbrev pub own_credential_names : List Text
own_credential_names =
    codes "ACTIONS_ID_TOKEN_REQUEST_TOKEN"
    ∷ codes "ACTIONS_ID_TOKEN_REQUEST_URL"
    ∷ codes "ACTIONS_RUNTIME_TOKEN"
    ∷ codes "COREPACK_NPM_TOKEN"
    ∷ codes "NPM_CONFIG_GLOBALCONFIG"
    ∷ codes "NPM_CONFIG_USERCONFIG"
    ∷ codes "SOCKET_PR_APP_PRIVATE_KEY"
    ∷ codes "SOCKET_RELEASE_APP_PRIVATE_KEY"
    ∷ []

-- `SOCKET_TOKEN_ENV_VAR` of run.mts, and `LEGACY_SOCKET_TOKEN_ENV_VAR`
abbrev pub socket_token_env_var : Text
socket_token_env_var = codes "SOCKET_API_TOKEN"

abbrev pub legacy_socket_token_env_var : Text
legacy_socket_token_env_var =
    take (length socket_token_env_var - 5) socket_token_env_var ++ codes "KEY"

-- `ScanCiConfig`
pub record ScanCiConfig : Type 0 where
  pub current_run_attempt : Number
  pub current_run_id : Number
  pub original_publish_run_id : Number
  pub package_name : Text
  pub package_version : Text
  pub repository : Text
  pub source_sha : Text
  pub stage_id : Text
  pub stage_sha1 : Text

-- `StagedScanVerdict`: of the lists of alerts, their lengths
pub record StagedScanVerdict : Type 0 where
  pub blocking_alerts : Number
  pub detail : Text
  pub error_alerts : ℕ
  pub ok : Bool
  pub total_alerts : Number
  pub scan_id : Option Text
  pub warn_alerts : ℕ

-- `requiredEnv`
abbrev pub given_value : Text → Text → Text → Result Text
given_value name value [] = err (missing_input name)
given_value name value (c ∷ cs) = ok (c ∷ cs)

abbrev pub trimmed : Text → Option Text → Result Text
trimmed name none = err (missing_input name)
trimmed name (some value) = given_value name value (trim value)

abbrev pub flat : Option (Option Text) → Option Text
flat none = none
flat (some value) = value

unfoldable pub required_env : Environment → Text → Result Text
unfolding trim get
required_env env name = trimmed name (flat (get name env))

-- The parameters: `toUpperCase`, `toLowerCase`, `Number` of a text, and the names of
-- registry/gh-auth.mts and registry/npm/auth-posture.mts.
pub record Strings : Type 0 where
  pub to_upper_case : Text → Text
  pub to_lower_case : Text → Text
  pub to_number : Text → Number
  pub imported_credential_names : List Text

module _ (strings : Strings) where
  -- `SOURCE_BUILD_CREDENTIAL_ENV_NAMES`
  abbrev pub source_build_credential_env_names : List Text
  source_build_credential_env_names =
      map strings.to_upper_case
        (strings.imported_credential_names ++ (socket_token_env_var ∷ own_credential_names))

  -- the condition of the loop
  unfoldable pub is_credential : Text → Bool
  is_credential name =
      let normalized_name = strings.to_upper_case name in
      has normalized_name source_build_credential_env_names
      || text_eq normalized_name legacy_socket_token_env_var
      || test git_credential_config_env_name normalized_name
      || test npm_credential_config_env_name normalized_name

  -- `npmScanSourceBuildEnvironment`
  unfoldable pub npm_scan_source_build_environment : Environment → Environment
  npm_scan_source_build_environment [] = []
  npm_scan_source_build_environment ((name, value) ∷ env) =
      (name, if is_credential name then none else value) ∷ npm_scan_source_build_environment env

  -- `positiveInteger`
  unfoldable pub positive_integer : Text → Text → Result Number
  positive_integer value name =
      let parsed = strings.to_number value in
      if is_positive (safe_count (some (number parsed)))
      then ok parsed
      else err (not_positive name value)

  -- `positiveInteger(requiredEnv(env, name), name)`
  abbrev pub positive_env : Environment → Text → Result Number
  positive_env env name = required_env env name >>= λ value. positive_integer value name

  -- the object that `readScanCiConfig` returns
  unfoldable pub config_from : Environment → Text → Text → Text → Result ScanCiConfig
  config_from env source_sha stage_sha1 stage_id = do
    run_attempt ← positive_env env (codes "GITHUB_RUN_ATTEMPT")
    run_id ← positive_env env (codes "GITHUB_RUN_ID")
    publish_run_id ← positive_env env (codes "SCAN_PUBLISH_RUN_ID")
    package_name ← required_env env (codes "SCAN_PACKAGE")
    package_version ← required_env env (codes "SCAN_VERSION")
    repository ← required_env env (codes "GITHUB_REPOSITORY")
    ok (record {
      current_run_attempt = run_attempt;
      current_run_id = run_id;
      original_publish_run_id = publish_run_id;
      package_name = package_name;
      package_version = package_version;
      repository = repository;
      source_sha = source_sha;
      stage_id = stage_id;
      stage_sha1 = stage_sha1;
    })

  -- the checks of `readScanCiConfig` on its texts
  unfoldable pub identity_from : Environment → Text → Text → Text → Result ScanCiConfig
  identity_from env source_sha stage_sha1 stage_id =
      if not (is_sha source_sha) || not (is_sha stage_sha1) || not (is_stage_id stage_id)
      then err scan_identity
      else config_from env source_sha stage_sha1 stage_id

  -- `readScanCiConfig`
  unfoldable pub read_scan_ci_config : Environment → Result ScanCiConfig
  read_scan_ci_config env = do
    source ← required_env env (codes "SCAN_SOURCE_SHA")
    stage ← required_env env (codes "SCAN_STAGE_SHA1")
    id ← required_env env (codes "SCAN_STAGE_ID")
    identity_from env (strings.to_lower_case source) (strings.to_lower_case stage) id

-- `policy` of the receipt
abbrev pub policy_of : StagedScanVerdict → Fields
policy_of verdict = field (codes "gate") (string (codes "malware")) (
    field (codes "blockingAlerts") (number verdict.blocking_alerts) (
      field (codes "errorAlerts") (number (whole verdict.error_alerts)) (
        field (codes "totalAlerts") (number verdict.total_alerts)
          (field (codes "warnAlerts") (number (whole verdict.warn_alerts)) no_fields))))

-- the object that `receiptFrom` parses
abbrev pub receipt_fields : ScanCiConfig → StagedScanVerdict → Text → Fields
receipt_fields config verdict scan_id = field (codes "packageName") (string config.package_name) (
    field (codes "packageVersion") (string config.package_version) (
      field (codes "policy") (object (policy_of verdict)) (
        field (codes "publishRunId") (number config.original_publish_run_id) (
          field (codes "repository") (string config.repository) (
            field (codes "runAttempt") (number config.current_run_attempt) (
              field (codes "runId") (number config.current_run_id) (
                field (codes "scanId") (string scan_id) (
                  field (codes "schemaVersion") (number (whole 2)) (
                    field (codes "sourceSha") (string config.source_sha) (
                      field (codes "stageId") (string config.stage_id) (
                        field (codes "stageSha1") (string config.stage_sha1) (
                          field (codes "verdict") (string (codes "passed")) (
                            field (codes "workflow") (string (codes "publish-npm.yml"))
                              no_fields)))))))))))))

abbrev pub receipt_of :
    ScanCiConfig → StagedScanVerdict → Bool → Option Text → Result NpmRemoteScanReceipt
receipt_of config verdict true (some (c ∷ cs)) =
    parse_npm_remote_scan_receipt (object (receipt_fields config verdict (c ∷ cs)))
receipt_of config verdict _ _ = err (scan_refused verdict.detail)

-- `receiptFrom`
unfoldable pub receipt_from : ScanCiConfig → StagedScanVerdict → Result NpmRemoteScanReceipt
receipt_from config verdict = receipt_of config verdict verdict.ok verdict.scan_id
