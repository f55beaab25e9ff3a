-- ===== src/NpmScan/Staged/Identity.antt =====
-- The configuration that the environment gives, and the receipt that it makes.
use socket_scan_patterns.Failure.{ok, err, receipt_malformed, bind-eq-ok, ok_injective}
use socket_scan_patterns.Json.{number, object, Number, prop, is_json_object, safe_count, text_of}
use socket_scan_patterns.NpmScan.Receipt.Source.{is_sha}
use socket_scan_patterns.NpmScan.Receipt.{
  is_stage_id, is_positive, has_passing_npm_scan_policy_counts, receipt_checks, parsed_receipt,
  NpmRemoteScanReceipt, parse_npm_remote_scan_receipt,
}
use socket_scan_patterns.NpmScan.Staged.{
  Environment, Strings, ScanCiConfig, StagedScanVerdict, given_value, trimmed, required_env,
  positive_integer, positive_env, flat, config_from, identity_from, read_scan_ci_config, policy_of,
  receipt_fields, receipt_of, receipt_from,
}
use socket_scan_patterns.Prelude.{
  ℕ, Bool, true, false, [], ◌∷◌, Option, none, some, if◌then◌else◌, ◌≡◌, refl, ◌∙◌, Bool-cases, inl,
  inr, subst, ◌↔◌,
}
use socket_scan_patterns.TextSet.{get}
use socket_scan_patterns.Text.{Text, codes, text_eq, trim}

-- a positive safe integer
abbrev pub IsPositive : Number → Type 0
IsPositive n = is_positive (safe_count (some (number n))) ≡ true

-- a text that is not empty
abbrev pub IsGiven : Text → Type 0
IsGiven t = (c : ℕ) × (cs : Text) × (t ≡ c ∷ cs)

-- What the checks of a receipt ask of a configuration.
pub record IsIdentity (config : ScanCiConfig) : Type 0 where
  pub source_is_sha : is_sha config.source_sha ≡ true
  pub stage_is_sha : is_sha config.stage_sha1 ≡ true
  pub stage_is_id : is_stage_id config.stage_id ≡ true
  pub attempt_is : IsPositive config.current_run_attempt
  pub run_is : IsPositive config.current_run_id
  pub publish_is : IsPositive config.original_publish_run_id
  pub name_is : IsGiven config.package_name
  pub version_is : IsGiven config.package_version

given_value-IsGiven : (name value t : Text) {r : Text} → given_value name value t ≡ ok r → IsGiven r
given_value-IsGiven name value [] h = cc
given_value-IsGiven name value (c ∷ cs) h = (c, cs, cc)

trimmed-IsGiven : (name : Text) (o : Option Text) {r : Text} → trimmed name o ≡ ok r → IsGiven r
trimmed-IsGiven name none h = cc
trimmed-IsGiven name (some value) h = given_value-IsGiven name value (trim value) h

required_env-IsGiven :
    (env : Environment) (name : Text) {r : Text} → required_env env name ≡ ok r → IsGiven r
unfolding required_env
required_env-IsGiven env name h = trimmed-IsGiven name (flat (get name env)) h

module _ (strings : Strings) where
  positive_integer-IsPositive :
      (value name : Text) {n : Number} → positive_integer strings value name ≡ ok n → IsPositive n
  unfolding positive_integer
  positive_integer-IsPositive value name h =
      elim (Bool-cases (is_positive (safe_count (some (number (strings.to_number value)))))) [
        | inl e ↦ subst IsPositive (ok_injective (rw e at h)) e
        | inr e ↦ cc (rw e at h)
      ]

  positive_env-IsPositive :
      (env : Environment) (name : Text) {n : Number}
      → positive_env strings env name ≡ ok n
      → IsPositive n
  positive_env-IsPositive env name h =
      let (value, _, parsed) = bind-eq-ok (required_env env name) _ h in
      positive_integer-IsPositive value name parsed

  config_from-IsIdentity :
      (env : Environment) (source stage id : Text) (config : ScanCiConfig)
      → is_sha source ≡ true
      → is_sha stage ≡ true
      → is_stage_id id ≡ true
      → config_from strings env source stage id ≡ ok config
      → IsIdentity config
  unfolding config_from
  config_from-IsIdentity env source stage id config s t i h =
      let (attempt, a, h1) =
        bind-eq-ok (positive_env strings env (codes "GITHUB_RUN_ATTEMPT")) _ h in
      let (run, r, h2) = bind-eq-ok (positive_env strings env (codes "GITHUB_RUN_ID")) _ h1 in
      let (publish, p, h3) =
        bind-eq-ok (positive_env strings env (codes "SCAN_PUBLISH_RUN_ID")) _ h2 in
      let (name, n, h4) = bind-eq-ok (required_env env (codes "SCAN_PACKAGE")) _ h3 in
      let (version, v, h5) = bind-eq-ok (required_env env (codes "SCAN_VERSION")) _ h4 in
      let (repository, _, h6) = bind-eq-ok (required_env env (codes "GITHUB_REPOSITORY")) _ h5 in
      subst IsIdentity (ok_injective h6) (record {
        source_is_sha = s;
        stage_is_sha = t;
        stage_is_id = i;
        attempt_is = positive_env-IsPositive env (codes "GITHUB_RUN_ATTEMPT") a;
        run_is = positive_env-IsPositive env (codes "GITHUB_RUN_ID") r;
        publish_is = positive_env-IsPositive env (codes "SCAN_PUBLISH_RUN_ID") p;
        name_is = required_env-IsGiven env (codes "SCAN_PACKAGE") n;
        version_is = required_env-IsGiven env (codes "SCAN_VERSION") v;
      })

  identity_from-IsIdentity :
      (env : Environment) (source stage id : Text) (config : ScanCiConfig)
      → identity_from strings env source stage id ≡ ok config
      → IsIdentity config
  unfolding identity_from
  identity_from-IsIdentity env source stage id config h = elim (Bool-cases (is_sha source)) [
    | inl s ↦ elim (Bool-cases (is_sha stage)) [
      | inl t ↦ elim (Bool-cases (is_stage_id id)) [
        | inl i ↦ config_from-IsIdentity env source stage id config s t i (rw (s, t, i) at h)
        | inr i ↦ cc (rw (s, t, i) at h)
      ]
      | inr t ↦ cc (rw (s, t) at h)
    ]
    | inr s ↦ cc (rw s at h)
  ]

  read_scan_ci_config-IsIdentity :
      (env : Environment) (config : ScanCiConfig)
      → read_scan_ci_config strings env ≡ ok config
      → IsIdentity config
  unfolding read_scan_ci_config
  read_scan_ci_config-IsIdentity env config h =
      let (source, _, h1) = bind-eq-ok (required_env env (codes "SCAN_SOURCE_SHA")) _ h in
      let (stage, _, h2) = bind-eq-ok (required_env env (codes "SCAN_STAGE_SHA1")) _ h1 in
      let (id, _, h3) = bind-eq-ok (required_env env (codes "SCAN_STAGE_ID")) _ h2 in
      identity_from-IsIdentity env _ _ id config h3

-- With an identity, only the counts decide.
parse-IsIdentity :
    (config : ScanCiConfig) (verdict : StagedScanVerdict) (c : ℕ) (cs : Text)
    → IsIdentity config
    → parse_npm_remote_scan_receipt (object (receipt_fields config verdict (c ∷ cs))) ≡ (
        if has_passing_npm_scan_policy_counts (some (object (policy_of verdict)))
        then ok (parsed_receipt (receipt_fields config verdict (c ∷ cs)))
        else err receipt_malformed)
unfolding parse_npm_remote_scan_receipt receipt_checks prop is_json_object text_of text_eq
parse-IsIdentity config verdict c cs i =
    let (_, _, named) = i.name_is in
    let (_, _, versioned) = i.version_is in
    let counts = has_passing_npm_scan_policy_counts (some (object (policy_of verdict))) in
    elim (Bool-cases counts) [
      | inl e ↦
          rw
            (
              i.run_is, i.attempt_is, i.source_is_sha, i.publish_is, i.stage_is_id, i.stage_is_sha,
              named, versioned, e,
            )
            refl
      | inr e ↦
          rw
            (
              i.run_is, i.attempt_is, i.source_is_sha, i.publish_is, i.stage_is_id, i.stage_is_sha,
              named, versioned, e,
            )
            refl
    ]

-- A scan that passed, with its id and counts that pass.
abbrev pub IsAccepted : StagedScanVerdict → Bool → Option Text → Type 0
IsAccepted verdict passed scan_id =
    (passed ≡ true)
    × ((id : Text) × IsGiven id × (scan_id ≡ some id))
    × (has_passing_npm_scan_policy_counts (some (object (policy_of verdict))) ≡ true)

receipt_of_iff :
    (config : ScanCiConfig) (verdict : StagedScanVerdict) (passed : Bool) (scan_id : Option Text)
    → IsIdentity config
    → ((receipt : NpmRemoteScanReceipt) × (receipt_of config verdict passed scan_id ≡ ok receipt))
      ↔ IsAccepted verdict passed scan_id
receipt_of_iff config verdict true (some (c ∷ cs)) i =
    let counts = has_passing_npm_scan_policy_counts (some (object (policy_of verdict))) in
    elim (Bool-cases counts) [
      | inl e ↦ (
        λ h. (refl, (c ∷ cs, (c, cs, refl), refl), e),
        λ h. (
          parsed_receipt (receipt_fields config verdict (c ∷ cs)),
          parse-IsIdentity config verdict c cs i ∙ rw e refl,
        ),
      )
      | inr e ↦ (
        λ (r, h). cc (rw (parse-IsIdentity config verdict c cs i, e) at h),
        λ (_, _, k). cc (rw e at k),
      )
    ]
receipt_of_iff config verdict true (some []) i =
    (λ (r, h). cc, λ (_, (id, (c, cs, given), same), _). cc)
receipt_of_iff config verdict true none i = (λ (r, h). cc, λ (_, (id, given, same), _). cc)
receipt_of_iff config verdict false scan_id i = (λ (r, h). cc, λ (h, _, _). cc)

-- For a configuration that was read from an environment, a verdict makes a receipt exactly where
-- it passed, has a scan id that is not empty, and its policy counts pass.
pub receipt_from_iff :
    (strings : Strings) (env : Environment) (config : ScanCiConfig) (verdict : StagedScanVerdict)
    → read_scan_ci_config strings env ≡ ok config
    → ((receipt : NpmRemoteScanReceipt) × (receipt_from config verdict ≡ ok receipt))
      ↔ IsAccepted verdict verdict.ok verdict.scan_id
unfolding receipt_from
receipt_from_iff strings env config verdict h =
    receipt_of_iff config verdict verdict.ok verdict.scan_id
      (read_scan_ci_config-IsIdentity strings env config h)
