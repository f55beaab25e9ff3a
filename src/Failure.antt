-- ===== src/Failure.antt =====
-- Thrown errors as values. Each constructor is one `throw` of the generators, with the parts of its
-- message that vary.
use mathlib.Core.Path.{◌≡◌, refl}
use socket_scan_patterns.Prelude.{ℕ, Bool, true, false, if◌then◌else◌, List, ◌⊎◌, inl, inr}
use socket_scan_patterns.Text.{Text}

pub data Failure : Type 0 where
  -- emit-table.mts
  zero_rows : Text → Text → Failure
  duplicate_ids : Text → List Text → ℕ → Failure
  source_file_missing : Text → Failure
  no_rules_array : Text → Failure
  -- read-json.mts
  json_not_object : Text → Failure
  -- import-*.mts: where, saw, wanted at least
  too_few_rules : Text → ℕ → ℕ → Failure
  unmapped_severity : Text → Failure
  -- upstream-slice.mts
  conformance_only : Text → Failure
  unknown_upstream : Text → Failure
  not_pinned : Text → Failure
  not_materialized : Text → Failure
  slice_file_missing : Text → Text → Failure
  -- divergence.mts
  no_reason : Text → Text → Failure
  -- import-skillspector.mts
  zero_patterns : Text → Failure
  -- import-skillspector/language.mts
  missing_extensions : Text → Failure
  no_literal_patterns : Text → Failure
  no_literal_rules : Text → Failure
  no_language_rules : Failure
  unsupported_expression : Failure
  -- port-zizmor-audits.mts
  no_audits_object : Failure
  unknown_status : Text → Failure
  untriaged_audits : List Text → Failure
  stale_audits : List Text → Failure
  declined_without_reason : Text → Failure
  -- npm/scan/receipt.mts
  no_unique_source : Failure
  prepared_source_mismatch : Failure
  no_release_receipt : Failure
  unreserved_source : Failure
  receipt_identity : Failure
  receipt_malformed : Failure
  -- npm/scan/staged.mts
  missing_input : Text → Failure
  not_positive : Text → Text → Failure
  scan_identity : Failure
  source_checkout_mismatch : Text → Text → Failure
  package_mismatch : Text → Text → Failure
  tarball_unavailable : Text → Failure
  tarball_mismatch : Text → Text → Failure
  scan_refused : Text → Failure
  -- thrown by what the code calls
  thrown_outside : Text → Failure
  -- load-table.mts
  malformed_table : Text → Failure
  schema_mismatch : Text → ℕ → Failure

-- A call that returns a value or throws.
pub data Result {ℓ} (V : Type ℓ) : Type ℓ where
  err : Failure → Result V
  ok : V → Result V

infixl 5 ◌>>=◌ ◌>>◌
abbrev pub ◌>>=◌ {ℓ κ} : {V : Type ℓ} {W : Type κ} → Result V → (V → Result W) → Result W
err thrown >>= next = err thrown
ok value >>= next = next value

abbrev pub ◌>>◌ {κ} : {W : Type κ} → Result (Unit {0}) → Result W → Result W
check >> next = check >>= λ _. next

pub ok_injective {ℓ} : {V : Type ℓ} {v w : V} → ok v ≡ ok w → v ≡ w
ok_injective h = cc

module _ {ℓ κ} {V : Type ℓ} {W : Type κ} (next : V → Result W) where
  bind_ok : (m : Result V) {w : W} → (m >>= next) ≡ ok w → (v : V) × (m ≡ ok v) × (next v ≡ ok w)
  bind_ok (err thrown) h = cc
  bind_ok (ok v) h = (v, refl, h)

  bind_err :
      (m : Result V) {thrown : Failure}
      → (m >>= next) ≡ err thrown
      → (m ≡ err thrown) ⊎ ((v : V) × (m ≡ ok v) × (next v ≡ err thrown))
  bind_err (err first) h = inl (cc)
  bind_err (ok v) h = inr (v, refl, h)

-- a sequence returns only if both parts do
pub bind-eq-ok {ℓ κ} :
    {V : Type ℓ} {W : Type κ} (m : Result V) (next : V → Result W) {w : W}
    → (m >>= next) ≡ ok w
    → (v : V) × (m ≡ ok v) × (next v ≡ ok w)
bind-eq-ok m next h = bind_ok next m h

pub bind-eq-err {ℓ κ} :
    {V : Type ℓ} {W : Type κ} (m : Result V) (next : V → Result W) {thrown : Failure}
    → (m >>= next) ≡ err thrown
    → (m ≡ err thrown) ⊎ ((v : V) × (m ≡ ok v) × (next v ≡ err thrown))
bind-eq-err m next h = bind_err next m h

pub Result-cases {ℓ} :
    {V : Type ℓ} (m : Result V) → ((v : V) × (m ≡ ok v)) ⊎ ((thrown : Failure) × (m ≡ err thrown))
Result-cases (err thrown) = inr (thrown, refl)
Result-cases (ok v) = inl (v, refl)

-- a guard that did not throw
pub passed :
    (failure : Failure) (c : Bool) → (if c then ok (tt {0}) else err failure) ≡ ok tt → c ≡ true
passed failure true h = refl
passed failure false h = cc
