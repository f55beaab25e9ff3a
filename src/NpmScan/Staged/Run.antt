-- ===== src/NpmScan/Staged/Run.antt =====
-- `runScanCi` of scripts/fleet/npm/scan/staged.mts. What it calls answers by the calls that were
-- made before, so that any behaviour of the platform is an instance.
use socket_scan_patterns.Failure.{
  Failure, Result, ok, err, source_checkout_mismatch, package_mismatch, tarball_unavailable,
  tarball_mismatch,
}
use socket_scan_patterns.NpmScan.Receipt.{NpmRemoteScanReceipt}
use socket_scan_patterns.NpmScan.Staged.{
  ScanCiConfig, StagedScanVerdict, Environment, Strings, read_scan_ci_config, receipt_from,
}
use socket_scan_patterns.Prelude.{
  Bool, true, false, not, ◌||◌, List, [], ◌∷◌, Option, none, some, if◌then◌else◌,
}
use socket_scan_patterns.Text.{Text, text_eq}

-- A call of what `ScanCiDeps` holds, of the file system, or of `safeDelete`.
pub data Call : Type 0 where
  head_sha subject : Call
  download : Text → Call
  pack : Text → Text → Call
  read_file : Text → Call
  scan : Text → Text → Text → Text → Call
  write_receipt : NpmRemoteScanReceipt → Call
  safe_delete : Text → Call
  cleanup_pack : Call

-- the calls so far, last one first
abbrev pub History : Type 0
History = List Call

-- `ScanCiDeps`, with the SHA-1 of a file and `safeDelete`
pub record ScanCiDeps : Type 0 where
  pub head_sha : History → Result Text
  pub subject : History → Result (Text × Text)
  pub download : Text → History → Result (Option Text)
  pub pack : Text → Text → History → Result (Option Text)
  pub file_sha1 : Text → History → Result Text
  pub scan : Text → Text → Text → Text → History → Result StagedScanVerdict
  pub write_receipt : NpmRemoteScanReceipt → History → Result (Unit {0})
  pub safe_delete : Text → History → Result (Unit {0})
  pub cleanup_pack : Option (History → Result (Unit {0}))

-- what returns or throws, and makes calls
abbrev pub Action : Type 0 → Type 0
Action A = History → Result A × History

abbrev pub pure : {A : Type 0} → A → Action A
pure a h = (ok a, h)

abbrev pub throws : {A : Type 0} → Failure → Action A
throws e h = (err e, h)

abbrev pub call : {A : Type 0} → Call → (History → Result A) → Action A
call c answer h = (answer h, c ∷ h)

abbrev pub returns : {A : Type 0} → Result A → Action A
returns r h = (r, h)

abbrev pub continue : {A B : Type 0} → Result A → (A → Action B) → Action B
continue (ok a) f h = f a h
continue (err e) f h = (err e, h)

infixl 5 ◌>>=◌ ◌>>◌
abbrev pub ◌>>=◌ : {A B : Type 0} → Action A → (A → Action B) → Action B
◌>>=◌ m f h = let (r, h') = m h in continue r f h'

abbrev pub ◌>>◌ : {B : Type 0} → Action (Unit {0}) → Action B → Action B
m >> k = m >>= λ _. k

abbrev pub first_failure : {A : Type 0} → Result (Unit {0}) → Result A → Result A
first_failure (err e) r = err e
first_failure (ok _) r = r

-- `try { … } finally { … }`: what the second part throws wins
abbrev pub finally : {A : Type 0} → Action A → Action (Unit {0}) → Action A
finally body cleanup h =
    let (r, h') = body h in let (r', h'') = cleanup h' in (first_failure r' r, h'')

-- `!text`
abbrev pub is_missing : Option Text → Bool
is_missing (some (c ∷ cs)) = false
is_missing _ = true

abbrev pub or_no_text : Option Text → Text
or_no_text none = []
or_no_text (some t) = t

-- the variables `downloaded` and `tarball`
pub record Obtained : Type 0 where
  pub downloaded : Option Text
  pub tarball : Option Text

abbrev pub tarball_of : Result Obtained → Option Text
tarball_of (ok o) = o.tarball
tarball_of (err e) = none

module _ (config : ScanCiConfig) (deps : ScanCiDeps) where
  -- `downloaded ?? (await deps.pack(…))`
  abbrev pub or_pack : Option Text → Action Obtained
  or_pack (some t) = pure (record { downloaded = some t; tarball = some t })
  or_pack none =
      call (pack config.package_name config.package_version)
        (deps.pack config.package_name config.package_version)
      >>= λ packed. pure (record { downloaded = none; tarball = packed })

  -- up to the assignment of `tarball`
  unfoldable pub obtain : Action Obtained
  obtain = call (download config.stage_id) (deps.download config.stage_id) >>= or_pack

  unfoldable pub same_sha1 : Text → Result (Unit {0})
  same_sha1 source_pack_sha1 =
      if text_eq source_pack_sha1 config.stage_sha1
      then ok tt
      else err (tarball_mismatch source_pack_sha1 config.stage_sha1)

  -- the test of a package that was built from the source
  unfoldable pub check_bytes : Option Text → Text → Action (Unit {0})
  check_bytes downloaded tarball =
      if is_missing downloaded
      then (call (read_file tarball) (deps.file_sha1 tarball) >>= λ sha1. returns (same_sha1 sha1))
      else pure tt

  -- from the scan on
  unfoldable pub scan_tarball : Text → Action NpmRemoteScanReceipt
  scan_tarball tarball = do
    verdict ←
        call (scan config.package_name config.package_version config.stage_sha1 tarball)
          (deps.scan config.package_name config.package_version config.stage_sha1 tarball)
    receipt ← returns (receipt_from config verdict)
    call (write_receipt receipt) (deps.write_receipt receipt)
    pure receipt

  -- the body of the outer `try` behind the assignment of `tarball`
  unfoldable pub use_tarball : Obtained → Action NpmRemoteScanReceipt
  use_tarball o =
      if is_missing o.tarball
      then throws (tarball_unavailable config.stage_id)
      else (check_bytes o.downloaded (or_no_text o.tarball) >> scan_tarball (or_no_text o.tarball))

  abbrev pub delete_tarball : Option Text → Action (Unit {0})
  delete_tarball none = pure tt
  delete_tarball (some t) = call (safe_delete t) (deps.safe_delete t)

  abbrev pub clean_up : Option (History → Result (Unit {0})) → Action (Unit {0})
  clean_up none = pure tt
  clean_up (some answer) = call cleanup_pack answer

  -- the outer `finally`
  unfoldable pub settle : Option Text → Action (Unit {0})
  settle tarball = finally (delete_tarball tarball) (clean_up deps.cleanup_pack)

  -- the outer `try`. Where the download or the package throws, `tarball` is `undefined`.
  unfoldable pub scan_stage : Action NpmRemoteScanReceipt
  scan_stage h =
      let (obtained, h') = obtain h in
      finally (continue obtained use_tarball) (settle (tarball_of obtained)) h'

  unfoldable pub check_subject : Text × Text → Result (Unit {0})
  check_subject (name, version) =
      if not (text_eq name config.package_name) || not (text_eq version config.package_version)
      then err (package_mismatch name version)
      else ok tt

  unfoldable pub check_head : Text → Result (Unit {0})
  check_head head =
      if not (text_eq head config.source_sha)
      then err (source_checkout_mismatch head config.source_sha)
      else ok tt

  -- `runScanCi`
  unfoldable pub run_scan_ci : Action NpmRemoteScanReceipt
  run_scan_ci = do
    head ← call head_sha deps.head_sha
    returns (check_head head)
    named ← call subject deps.subject
    returns (check_subject named)
    scan_stage

-- `main`
unfoldable pub main : Strings → Environment → ScanCiDeps → Action NpmRemoteScanReceipt
main strings env deps =
    returns (read_scan_ci_config strings env) >>= λ config. run_scan_ci config deps
