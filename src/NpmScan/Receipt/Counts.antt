-- ===== src/NpmScan/Receipt/Counts.antt =====
-- The counts of a policy verdict.
use socket_scan_patterns.Json.{
  Json, number, string, Fields, whole, prop, max_safe_integer, safe_count, text_of,
}
use socket_scan_patterns.NpmScan.Receipt.{
  record_of, same_text, is_zero, counts_fit, has_passing_npm_scan_policy_counts,
}
use socket_scan_patterns.Prelude.{
  ℕ, zero, suc, ◌+◌, ◌≤◌, Bool, true, ◌&&◌, Option, none, some, ◌≡◌, ◌↔◌, refl, ap, ◌∙◌, arith, leb,
  Bool-cases, inl, inr, some_injective, leb→le, le→leb, and_three_iff,
}
use socket_scan_patterns.Text.Equality.{text_eq_iff}
use socket_scan_patterns.Text.{Text, codes}

-- A policy that passes: no blocking alert, and errors and warnings within a total that is safe.
pub record IsPassing (policy : Fields) : Type 0 where
  pub errors : ℕ
  pub total : ℕ
  pub warnings : ℕ
  pub gate_is : prop (codes "gate") policy ≡ some (string (codes "malware"))
  pub blocking_is : prop (codes "blockingAlerts") policy ≡ some (number (whole 0))
  pub errors_are : prop (codes "errorAlerts") policy ≡ some (number (whole errors))
  pub total_is : prop (codes "totalAlerts") policy ≡ some (number (whole total))
  pub warnings_are : prop (codes "warnAlerts") policy ≡ some (number (whole warnings))
  pub within : errors + warnings ≤ total
  pub safe : total ≤ max_safe_integer

safe_count-some :
    (value : Option Json) (n : ℕ)
    → safe_count value ≡ some n
    → (value ≡ some (number (whole n))) × (n ≤ max_safe_integer)
unfolding safe_count
safe_count-some (some (number (whole m))) n h = elim (Bool-cases (leb m max_safe_integer)) [
  | inl e ↦
      let same = some_injective (rw e at h) in
      (ap (λ (k : ℕ). some (number (whole k))) same, omega (arith, leb→le m _ e))
  | inr e ↦ cc (rw e at h)
]
safe_count-some _ n h = cc

string_injective : {s t : Text} → some (string s) ≡ some (string t) → s ≡ t
string_injective h = cc

text_is :
    (t : Text) (value : Option Json)
    → (same_text t (text_of value) ≡ true) ↔ (value ≡ some (string t))
unfolding text_of
text_is t (some (string s)) = (
  λ h. ap (λ (u : Text). some (string u)) ((text_eq_iff s t).0 h),
  λ e. (text_eq_iff s t).1 (string_injective e),
)
text_is t _ = (λ h. cc, λ e. cc)

whole_injective : {m n : ℕ} → some (number (whole m)) ≡ some (number (whole n)) → m ≡ n
whole_injective h = cc

zero_is : (value : Option Json) → (is_zero value ≡ true) ↔ (value ≡ some (number (whole 0)))
zero_is (some (number (whole zero))) = (λ h. refl, λ e. refl)
zero_is (some (number (whole (suc n)))) = (λ h. cc, λ e. ground (arith, whole_injective e))
zero_is _ = (λ h. cc, λ e. cc)

-- what the comparisons ask of the counts
counts_fit-some :
    (errors total warnings : Option ℕ)
    → counts_fit errors total warnings ≡ true
    → (e t w : ℕ) × (errors ≡ some e) × (total ≡ some t) × (warnings ≡ some w) × (e + w ≤ t)
counts_fit-some (some e) (some t) (some w) h = (e, t, w, refl, refl, refl, ground arith)
counts_fit-some none total warnings h = cc
counts_fit-some (some e) none warnings h = cc
counts_fit-some (some e) (some t) none h = cc

safe_count-whole : (n : ℕ) → n ≤ max_safe_integer → safe_count (some (number (whole n))) ≡ some n
unfolding safe_count
safe_count-whole n h = rw (le→leb n _ h) refl

safe_count-at :
    {value : Option Json} {n : ℕ}
    → value ≡ some (number (whole n))
    → n ≤ max_safe_integer
    → safe_count value ≡ some n
safe_count-at {n = n} is small = ap safe_count is ∙ safe_count-whole n small

counts_fit-le :
    (errors total warnings : Option ℕ) (e t w : ℕ)
    → errors ≡ some e
    → total ≡ some t
    → warnings ≡ some w
    → e + w ≤ t
    → counts_fit errors total warnings ≡ true
counts_fit-le errors total warnings e t w es ts ws fit = rw (es, ts, ws) (ground arith)

-- what each of the five members has to be
Counted : (gate blocking errors total warnings : Option Json) (e t w : ℕ) → Type 0
Counted gate blocking errors total warnings e t w =
    (gate ≡ some (string (codes "malware")))
    × (blocking ≡ some (number (whole 0)))
    × (errors ≡ some (number (whole e)))
    × (total ≡ some (number (whole t)))
    × (warnings ≡ some (number (whole w)))

abbrev counted : (gate blocking errors total warnings : Option Json) → Bool
counted gate blocking errors total warnings =
    same_text (codes "malware") (text_of gate)
    && is_zero blocking
    && counts_fit (safe_count errors) (safe_count total) (safe_count warnings)

counted-Counted :
    (gate blocking errors total warnings : Option Json)
    → counted gate blocking errors total warnings ≡ true
    → (e t w : ℕ) × Counted gate blocking errors total warnings e t w
      × (e + w ≤ t)
      × (t ≤ max_safe_integer)
unfolding Counted
counted-Counted gate blocking errors total warnings h =
    let fit_counts = counts_fit (safe_count errors) (safe_count total) (safe_count warnings) in
    let (is_gate, is_blocking, counts) =
      (and_three_iff (same_text (codes "malware") (text_of gate)) (is_zero blocking) fit_counts).0
        h in
    let (e, t, w, es, ts, ws, fit) = counts_fit-some _ _ _ counts in
    let (at_total, safe) = safe_count-some total t ts in
    (
      e,
      t,
      w,
      (
        (text_is (codes "malware") gate).0 is_gate,
        (zero_is blocking).0 is_blocking,
        (safe_count-some errors e es).0,
        at_total,
        (safe_count-some warnings w ws).0,
      ),
      fit,
      safe,
    )

Counted-counted :
    (gate blocking errors total warnings : Option Json) (e t w : ℕ)
    → Counted gate blocking errors total warnings e t w
    → e + w ≤ t
    → t ≤ max_safe_integer
    → counted gate blocking errors total warnings ≡ true
unfolding Counted
Counted-counted gate blocking errors total warnings e t w (g, b, es, ts, ws) fit safe =
    let fit_counts = counts_fit (safe_count errors) (safe_count total) (safe_count warnings) in
    (and_three_iff (same_text (codes "malware") (text_of gate)) (is_zero blocking) fit_counts).1 (
      (text_is (codes "malware") gate).1 g,
      (zero_is blocking).1 b,
      counts_fit-le _ _ _ e t w (safe_count-at es (omega arith)) (safe_count-at ts safe)
          (safe_count-at ws (omega arith)) fit,
    )

-- The counts of a policy pass exactly where the gate is malware, no alert blocks, and errors,
-- total and warnings are natural numbers with errors and warnings together at most the total,
-- which is a safe integer.
pub has_passing_npm_scan_policy_counts_iff :
    (value : Option Json)
    → (has_passing_npm_scan_policy_counts value ≡ true) ↔ IsPassing (record_of value)
unfolding has_passing_npm_scan_policy_counts Counted
has_passing_npm_scan_policy_counts_iff value =
    let policy = record_of value in
    let at = λ (key : Text). prop key policy in
    (
      λ h.
          let (e, t, w, (g, b, es, ts, ws), fit, safe) =
            counted-Counted (at (codes "gate")) (at (codes "blockingAlerts"))
              (at (codes "errorAlerts")) (at (codes "totalAlerts")) (at (codes "warnAlerts")) h in
          record {
            errors = e;
            total = t;
            warnings = w;
            gate_is = g;
            blocking_is = b;
            errors_are = es;
            total_is = ts;
            warnings_are = ws;
            within = fit;
            safe = safe;
          },
      λ p.
          Counted-counted (at (codes "gate")) (at (codes "blockingAlerts"))
            (at (codes "errorAlerts")) (at (codes "totalAlerts")) (at (codes "warnAlerts")) p.errors
            p.total p.warnings (p.gate_is, p.blocking_is, p.errors_are, p.total_is, p.warnings_are)
            p.within p.safe,
    )
