-- ===== src/NpmScan/Staged/History.antt =====
-- The calls that a scan in CI makes.
use socket_scan_patterns.Failure.{Result, ok, err}
use socket_scan_patterns.NpmScan.Receipt.{NpmRemoteScanReceipt}
use socket_scan_patterns.NpmScan.Staged.Run.{
  Call, head_sha, subject, download, pack, read_file, write_receipt, safe_delete, cleanup_pack,
  History, ScanCiDeps, Action, pure, returns, continue, Obtained, tarball_of, or_pack, obtain,
  same_sha1, check_bytes, scan_tarball, use_tarball, delete_tarball, clean_up, settle, scan_stage,
  check_subject, check_head, run_scan_ci,
}
use socket_scan_patterns.NpmScan.Staged.{ScanCiConfig, StagedScanVerdict, receipt_from}
use socket_scan_patterns.Prelude.{
  [], ◌∷◌, Option, none, some, All, ◌≡◌, inl, inr, refl, ap, ◌∙◌, Bool-cases, ap₂,
}
use socket_scan_patterns.Text.Equality.{text_eq_iff, text_eq_refl}
use socket_scan_patterns.Text.{Text, text_eq}

module _ (config : ScanCiConfig) (deps : ScanCiDeps) where
  -- The bytes that npm staged, or a package of the source with their hash.
  pub data IsObtained (before : History) (tarball : Text) : History → Type 0 where
    downloaded :
        deps.download config.stage_id before ≡ ok (some tarball)
        → IsObtained before tarball (download config.stage_id ∷ before)
    packed :
        deps.download config.stage_id before ≡ ok none
        → deps.pack config.package_name config.package_version (download config.stage_id ∷ before)
          ≡ ok (some tarball)
        → deps.file_sha1 tarball
            (pack config.package_name config.package_version ∷ download config.stage_id ∷ before)
          ≡ ok config.stage_sha1
        → IsObtained before tarball (
            read_file tarball
            ∷ pack config.package_name config.package_version
            ∷ download config.stage_id
            ∷ before)

  -- What stands behind a receipt: the checkout, the subject, the bytes and the verdict.
  pub record IsScanned (before : History) (receipt : NpmRemoteScanReceipt) : Type 0 where
    pub checkout : deps.head_sha before ≡ ok config.source_sha
    pub named : deps.subject (head_sha ∷ before) ≡ ok (config.package_name, config.package_version)
    pub tarball : Text
    pub at : History
    pub obtained : IsObtained (subject ∷ head_sha ∷ before) tarball at
    pub verdict : StagedScanVerdict
    pub scanned :
        deps.scan config.package_name config.package_version config.stage_sha1 tarball at
        ≡ ok verdict
    pub accepted : receipt_from config verdict ≡ ok receipt

  -- a call that may be made from a history on
  pub Allowed : History → Call → Type 0
  Allowed before (write_receipt receipt) = IsScanned before receipt
  Allowed before _ = Unit

  module _ (before : History) where
    abbrev Fine : History → Type 0
    Fine = All (Allowed before)

    continue-Fine :
        {A B : Type 0} (r : Result A) (f : A → Action B) (h : History)
        → Fine h
        → ((a : A) → r ≡ ok a → Fine (f a h).1)
        → Fine (continue r f h).1
    continue-Fine (ok a) f h fine step = step a refl
    continue-Fine (err e) f h fine step = fine

    delete_tarball-Fine :
        (t : Option Text) (h : History) → Fine h → Fine (delete_tarball config deps t h).1
    unfolding Allowed
    delete_tarball-Fine none h fine = fine
    delete_tarball-Fine (some t) h fine = (tt, fine)

    clean_up-Fine :
        (c : Option (History → Result (Unit {0}))) (h : History)
        → Fine h
        → Fine (clean_up config deps c h).1
    unfolding Allowed
    clean_up-Fine none h fine = fine
    clean_up-Fine (some answer) h fine = (tt, fine)

    settle-Fine : (t : Option Text) (h : History) → Fine h → Fine (settle config deps t h).1
    unfolding settle
    settle-Fine t h fine = clean_up-Fine deps.cleanup_pack _ (delete_tarball-Fine t h fine)

    check_head_eq : (head : Text) → check_head config deps head ≡ ok tt → head ≡ config.source_sha
    unfolding check_head
    check_head_eq head h = elim (Bool-cases (text_eq head config.source_sha)) [
      | inl e ↦ (text_eq_iff head config.source_sha).0 e
      | inr e ↦ cc (rw e at h)
    ]

    same_sha1_eq : (sha1 : Text) → same_sha1 config deps sha1 ≡ ok tt → sha1 ≡ config.stage_sha1
    unfolding same_sha1
    same_sha1_eq sha1 h = elim (Bool-cases (text_eq sha1 config.stage_sha1)) [
      | inl e ↦ (text_eq_iff sha1 config.stage_sha1).0 e
      | inr e ↦ cc (rw e at h)
    ]

    check_subject_eq :
        (name version : Text)
        → check_subject config deps (name, version) ≡ ok tt
        → (name ≡ config.package_name) × (version ≡ config.package_version)
    unfolding check_subject
    check_subject_eq name version h = elim (Bool-cases (text_eq name config.package_name)) [
      | inl a ↦ elim (Bool-cases (text_eq version config.package_version)) [
        | inl b ↦ ((text_eq_iff name _).0 a, (text_eq_iff version _).0 b)
        | inr b ↦ cc (rw (a, b) at h)
      ]
      | inr a ↦ cc (rw a at h)
    ]

    abbrev ready : History
    ready = subject ∷ head_sha ∷ before

    -- the hash of a package that was built
    hashed-Fine :
        {B : Type 0} (answer : Result Text) (f : Unit {0} → Action B) (h : History)
        → Fine h
        → (answer ≡ ok config.stage_sha1 → Fine (f tt h).1)
        → Fine
            (let (r, h') = continue answer (λ sha1. returns (same_sha1 config deps sha1)) h in
              continue r f h').1
    hashed-Fine (err e) f h fine step = fine
    hashed-Fine (ok sha1) f h fine step =
        continue-Fine (same_sha1 config deps sha1) f h fine
          (λ _ e. step (ap (λ (s : Text). ok s) (same_sha1_eq sha1 e)))

    module _ (checkout : deps.head_sha before ≡ ok config.source_sha)
        (named : deps.subject (head_sha ∷ before)
          ≡ ok (config.package_name, config.package_version))
        (ready_fine : Fine ready) where
      scan_tarball-Fine :
          (tarball : Text) (h : History)
          → IsObtained ready tarball h
          → Fine h
          → Fine (scan_tarball config deps tarball h).1
      unfolding scan_tarball Allowed
      scan_tarball-Fine tarball h obtained fine =
          continue-Fine
            (deps.scan config.package_name config.package_version config.stage_sha1 tarball h) _ _
            (tt, fine)
            λ verdict e.
              continue-Fine (receipt_from config verdict) _ _ (tt, fine)
                λ receipt e'.
                  let behind : IsScanned before receipt = record {
                    checkout = checkout;
                    named = named;
                    tarball = tarball;
                    at = h;
                    obtained = obtained;
                    verdict = verdict;
                    scanned = e;
                    accepted = e';
                  } in
                  continue-Fine (deps.write_receipt receipt _) _ _ (behind, (tt, fine))
                    (λ _ _. (behind, (tt, fine)))

      use_downloaded-Fine :
          (t : Text)
          → deps.download config.stage_id ready ≡ ok (some t)
          → Fine
              (use_tarball config deps
                (record { downloaded = some t; tarball = some t })
                (download config.stage_id ∷ ready)).1
      unfolding use_tarball check_bytes Allowed
      use_downloaded-Fine [] e = (tt, ready_fine)
      use_downloaded-Fine (c ∷ cs) e = scan_tarball-Fine (c ∷ cs) _ (downloaded e) (tt, ready_fine)

      use_packed-Fine :
          (packed : Option Text)
          → deps.download config.stage_id ready ≡ ok none
          → deps.pack config.package_name config.package_version (download config.stage_id ∷ ready)
            ≡ ok packed
          → Fine
              (use_tarball config deps
                (record { downloaded = none; tarball = packed })
                (pack config.package_name config.package_version
                  ∷ download config.stage_id
                  ∷ ready)).1
      unfolding use_tarball check_bytes Allowed
      use_packed-Fine none e e' = (tt, (tt, ready_fine))
      use_packed-Fine (some []) e e' = (tt, (tt, ready_fine))
      use_packed-Fine (some (c ∷ cs)) e e' =
          hashed-Fine (deps.file_sha1 (c ∷ cs) _) _ _ (tt, (tt, (tt, ready_fine)))
            λ same. scan_tarball-Fine (c ∷ cs) _ (packed e e' same) (tt, (tt, (tt, ready_fine)))

      abbrev after_pack : Result (Option Text) → Result Obtained × History
      after_pack answer =
          continue answer (λ p. pure (record { downloaded = none; tarball = p }))
            (pack config.package_name config.package_version ∷ download config.stage_id ∷ ready)

      packed-Fine :
          (answer : Result (Option Text))
          → deps.download config.stage_id ready ≡ ok none
          → deps.pack config.package_name config.package_version (download config.stage_id ∷ ready)
            ≡ answer
          → Fine (continue (after_pack answer).0 (use_tarball config deps) (after_pack answer).1).1
      unfolding Allowed
      packed-Fine (err e) d e' = (tt, (tt, ready_fine))
      packed-Fine (ok p) d e' = use_packed-Fine p d e'

      abbrev after_download : Result (Option Text) → Result Obtained × History
      after_download answer =
          continue answer (or_pack config deps) (download config.stage_id ∷ ready)

      obtained-Fine :
          (answer : Result (Option Text))
          → deps.download config.stage_id ready ≡ answer
          → Fine
              (continue
                (after_download answer).0
                (use_tarball config deps)
                (after_download answer).1).1
      unfolding Allowed
      obtained-Fine (err e) d = (tt, ready_fine)
      obtained-Fine (ok (some t)) d = use_downloaded-Fine t d
      obtained-Fine (ok none) d = packed-Fine _ d refl

      scan_stage-Fine : Fine (scan_stage config deps ready).1
      unfolding scan_stage obtain
      scan_stage-Fine = settle-Fine _ _ (obtained-Fine _ refl)

    -- the run, on a history
    run_scan_ci-Fine : Fine before → Fine (run_scan_ci config deps before).1
    unfolding run_scan_ci Allowed
    run_scan_ci-Fine fine =
        continue-Fine (deps.head_sha before) _ _ (tt, fine)
          λ head found.
            continue-Fine (check_head config deps head) _ _ (tt, fine)
              λ _ checked.
                continue-Fine (deps.subject (head_sha ∷ before)) _ _ (tt, (tt, fine))
                  λ (name, version) read.
                    continue-Fine (check_subject config deps (name, version)) _ _ (tt, (tt, fine))
                      λ _ same.
                        let (same_name, same_version) = check_subject_eq name version same in
                        scan_stage-Fine
                          (found ∙ ap (λ (h : Text). ok h) (check_head_eq head checked))
                          (read ∙ ap₂ (λ (n v : Text). ok (n, v)) same_name same_version)
                          (tt, (tt, fine))

  -- In the calls of a run, whatever the calls answer, a receipt is written only where the checkout
  -- is the configured source, the subject has the configured name and version, the bytes were
  -- downloaded or packed with the configured hash, and the scan of those bytes gave a verdict that
  -- makes this receipt.
  pub run_scan_ci-All : All (Allowed []) (run_scan_ci config deps []).1
  run_scan_ci-All = run_scan_ci-Fine [] tt

  -- The calls at the end of a run: the tarball is deleted, and the package cleaned up.
  abbrev pub deleted : Option Text → History → History
  deleted none h = h
  deleted (some t) h = safe_delete t ∷ h

  abbrev pub cleaned : Option (History → Result (Unit {0})) → History → History
  cleaned none h = h
  cleaned (some answer) h = cleanup_pack ∷ h

  clean_up-cleaned :
      (c : Option (History → Result (Unit {0}))) (h : History)
      → (clean_up config deps c h).1 ≡ cleaned c h
  clean_up-cleaned none h = refl
  clean_up-cleaned (some answer) h = refl

  delete_tarball-deleted :
      (t : Option Text) (h : History) → (delete_tarball config deps t h).1 ≡ deleted t h
  delete_tarball-deleted none h = refl
  delete_tarball-deleted (some t) h = refl

  settle-cleaned :
      (t : Option Text) (h : History)
      → (settle config deps t h).1 ≡ cleaned deps.cleanup_pack (deleted t h)
  unfolding settle
  settle-cleaned t h =
      clean_up-cleaned deps.cleanup_pack _
      ∙ ap (λ (h' : History). cleaned deps.cleanup_pack h') (delete_tarball-deleted t h)

  -- a run that gets past the checks
  past_checks :
      (before : History)
      → deps.head_sha before ≡ ok config.source_sha
      → deps.subject (head_sha ∷ before) ≡ ok (config.package_name, config.package_version)
      → run_scan_ci config deps before ≡ scan_stage config deps (subject ∷ head_sha ∷ before)
  unfolding run_scan_ci check_head check_subject
  past_checks before checkout named =
      rw
        (
          checkout,
          text_eq_refl config.source_sha,
          named,
          text_eq_refl config.package_name,
          text_eq_refl config.package_version,
        )
        refl

  -- Where the checkout and the subject are the configured ones, the calls of a run end, whatever
  -- else returns or throws, with the deletion of the tarball, if there is one, and then the
  -- cleanup of the package, if there is one.
  pub run_scan_ci-settles :
      (before : History)
      → deps.head_sha before ≡ ok config.source_sha
      → deps.subject (head_sha ∷ before) ≡ ok (config.package_name, config.package_version)
      → (worked : History) × ((run_scan_ci config deps before).1
          ≡ cleaned deps.cleanup_pack
              (deleted (tarball_of (obtain config deps (subject ∷ head_sha ∷ before)).0) worked))
  unfolding scan_stage
  run_scan_ci-settles before checkout named =
      let (obtained, h) = obtain config deps (subject ∷ head_sha ∷ before) in
      (
        (continue obtained (use_tarball config deps) h).1,
        ap (λ (p : Result NpmRemoteScanReceipt × History). p.1) (past_checks before checkout named)
            ∙ settle-cleaned (tarball_of obtained) _,
      )
