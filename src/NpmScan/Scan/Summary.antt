-- ===== src/NpmScan/Scan/Summary.antt =====
-- What a summary holds.
use socket_scan_patterns.Json.{Json, object, Items, no_items, item, Fields, prop}
use socket_scan_patterns.NpmScan.Scan.{
  PolicyAlert, PolicyAlertSummary, count_alert, no_alerts, detail_of, is_resolved_policy_alert,
  alerts_of, summarize_alerts, summarize_artifact, summarize_from, summarize_resolved_policy_alerts,
}
use socket_scan_patterns.Prelude.{
  ◌+◌, ◌≤◌, Bool, true, false, List, [], ◌∷◌, ◌++◌, some, if◌then◌else◌, ◌≡◌, refl, sym, ap, arith,
  length, length-append, keep, Bool-cases, inl, inr, some_injective, subst, then_option-some,
}
use socket_scan_patterns.Text.Equality.{text_eq_iff}
use socket_scan_patterns.Text.{Text, codes, text_eq}

abbrev pub is_error : PolicyAlert → Bool
is_error alert = text_eq alert.action (codes "error")

abbrev pub is_warn : PolicyAlert → Bool
is_warn alert = text_eq alert.action (codes "warn")

-- The alerts are counted, and those of the actions `error` and `warn` are kept apart.
pub record IsSplit (s : PolicyAlertSummary) : Type 0 where
  pub errors : s.error ≡ keep is_error s.alerts
  pub warnings : s.warn ≡ keep is_warn s.alerts
  pub counted : s.total ≡ length s.alerts

keep-concat :
    (p : PolicyAlert → Bool) (l : List PolicyAlert) (a : PolicyAlert)
    → keep p (l ++ a ∷ []) ≡ (if p a then keep p l ++ a ∷ [] else keep p l)
keep-concat p [] a = elim (Bool-cases (p a)) [ inl e ↦ rw e refl | inr e ↦ rw e refl ]
keep-concat p (x ∷ l) a = elim (Bool-cases (p x)) [
  | inl k ↦ elim (Bool-cases (p a)) [
    | inl e ↦ rw (k, keep-concat p l a, e) refl
    | inr e ↦ rw (k, keep-concat p l a, e) refl
  ]
  | inr k ↦ rw (k, keep-concat p l a) refl
]

count_alert-IsSplit :
    (s : PolicyAlertSummary) (a : PolicyAlert) → IsSplit s → IsSplit (count_alert s a)
unfolding count_alert
count_alert-IsSplit s a h = record {
  errors = rw h.errors (sym (keep-concat is_error s.alerts a));
  warnings = rw h.warnings (sym (keep-concat is_warn s.alerts a));
  counted = omega (arith, h.counted, length-append s.alerts (a ∷ []));
}

module _ (string_of : Json → Text) where
  summarize_alerts-IsSplit :
      (artifact : Fields) (alerts : Items) (s next : PolicyAlertSummary)
      → IsSplit s
      → summarize_alerts string_of artifact alerts s ≡ some next
      → IsSplit next
  unfolding summarize_alerts
  summarize_alerts-IsSplit artifact no_items s next h e = subst IsSplit (some_injective e) h
  summarize_alerts-IsSplit artifact (item alert alerts) s next h e =
      let (found, _, rest) = then_option-some (is_resolved_policy_alert alert) _ e in
      summarize_alerts-IsSplit artifact alerts _ next
        (count_alert-IsSplit s (detail_of string_of artifact found) h) rest

  summarize_artifact-IsSplit :
      (artifact : Json) (s next : PolicyAlertSummary)
      → IsSplit s
      → summarize_artifact string_of artifact s ≡ some next
      → IsSplit next
  unfolding summarize_artifact
  summarize_artifact-IsSplit (object artifact) s next h e =
      let (alerts, _, rest) = then_option-some (alerts_of (prop (codes "alerts") artifact)) _ e in
      summarize_alerts-IsSplit artifact alerts s next h rest
  summarize_artifact-IsSplit _ s next h e = cc

  summarize_from-IsSplit :
      (artifacts : List Json) (s next : PolicyAlertSummary)
      → IsSplit s
      → summarize_from string_of artifacts s ≡ some next
      → IsSplit next
  unfolding summarize_from
  summarize_from-IsSplit [] s next h e = subst IsSplit (some_injective e) h
  summarize_from-IsSplit (artifact ∷ artifacts) s next h e =
      let (mid, one, rest) = then_option-some (summarize_artifact string_of artifact s) _ e in
      summarize_from-IsSplit artifacts mid next (summarize_artifact-IsSplit artifact s mid h one)
        rest

  -- The total of a summary is the number of its alerts, and its errors and warnings are the alerts
  -- with these actions, in order.
  pub summarize_resolved_policy_alerts-IsSplit :
      (artifacts : List Json) (s : PolicyAlertSummary)
      → summarize_resolved_policy_alerts string_of artifacts ≡ some s
      → IsSplit s
  unfolding summarize_resolved_policy_alerts
  summarize_resolved_policy_alerts-IsSplit artifacts s e =
      summarize_from-IsSplit artifacts no_alerts s
        (record { errors = refl; warnings = refl; counted = refl }) e

-- Errors and warnings are apart, so that together they are at most all.
error_not_warn : (a : PolicyAlert) → is_error a ≡ true → is_warn a ≡ false
unfolding text_eq
error_not_warn a h =
    ap (λ (t : Text). text_eq t (codes "warn")) ((text_eq_iff a.action (codes "error")).0 h)

length-keep-apart :
    (p q : PolicyAlert → Bool)
    → ((a : PolicyAlert) → p a ≡ true → q a ≡ false)
    → (l : List PolicyAlert) → length (keep p l) + length (keep q l) ≤ length l
length-keep-apart p q apart [] = omega arith
length-keep-apart p q apart (a ∷ l) = elim (Bool-cases (p a)) [
  | inl e ↦ rw (e, apart a e) (omega (arith, length-keep-apart p q apart l))
  | inr e ↦ elim (Bool-cases (q a)) [
    | inl k ↦ rw (e, k) (omega (arith, length-keep-apart p q apart l))
    | inr k ↦ rw (e, k) (omega (arith, length-keep-apart p q apart l))
  ]
]

pub IsSplit-le : (s : PolicyAlertSummary) → IsSplit s → length s.error + length s.warn ≤ s.total
IsSplit-le s h =
    rw (h.errors, h.warnings, h.counted)
      (length-keep-apart is_error is_warn error_not_warn s.alerts)
