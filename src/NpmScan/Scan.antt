-- ===== src/NpmScan/Scan.antt =====
-- scripts/fleet/registry/npm/scan/run.mts: the policy on the alerts of a full scan, the polling of
-- the scan, and the verdict.
pub mod Polling
pub mod Summary
pub mod Verdict
pub mod Deadline
use socket_scan_patterns.Json.{
  Json, null, string, array, object, Items, no_items, item, Fields, prop, text_of,
}
use socket_scan_patterns.Prelude.{
  ℕ, zero, suc, ◌+◌, Bool, true, false, not, ◌&&◌, ◌||◌, List, [], ◌∷◌, ◌++◌, Option, none, some,
  ◌==◌, leb, if◌then◌else◌, keep, then_option,
}
use socket_scan_patterns.TextSet.{has}
use socket_scan_patterns.Text.{Text, codes, text_eq}

-- `PolicyFailingAlert & { action: string }`; the severity is what the scan says
pub record PolicyAlert : Type 0 where
  pub action : Text
  pub artifact : Text
  pub severity : Json
  pub kind : Text

-- `PolicyAlertSummary`
pub record PolicyAlertSummary : Type 0 where
  pub alerts : List PolicyAlert
  pub error : List PolicyAlert
  pub total : ℕ
  pub warn : List PolicyAlert

-- `isNpmBlockingMalwareAlert`
unfoldable pub is_npm_blocking_malware_alert : PolicyAlert → Bool
is_npm_blocking_malware_alert alert =
    (text_eq alert.action (codes "error") || text_eq alert.action (codes "warn"))
    && (text_eq alert.kind (codes "gptMalware") || text_eq alert.kind (codes "malware"))

-- `npmBlockingMalwareAlerts`
unfoldable pub npm_blocking_malware_alerts : PolicyAlertSummary → List PolicyAlert
npm_blocking_malware_alerts summary = keep is_npm_blocking_malware_alert summary.alerts

-- `RESOLVED_ALERT_ACTIONS`
abbrev pub resolved_alert_actions : List Text
resolved_alert_actions = codes "error" ∷ codes "ignore" ∷ codes "monitor" ∷ codes "warn" ∷ []

-- an alert's action and type, if they pass
abbrev resolved : Fields → Option Text → Option Text → Option (Fields × Text × Text)
resolved alert (some action) (some (c ∷ cs)) =
    if has action resolved_alert_actions then some (alert, action, c ∷ cs) else none
resolved alert _ _ = none

-- `isResolvedPolicyAlert`: the alert with its action and its type
unfoldable pub is_resolved_policy_alert : Json → Option (Fields × Text × Text)
is_resolved_policy_alert (object alert) =
    resolved alert (text_of (prop (codes "action") alert)) (text_of (prop (codes "type") alert))
is_resolved_policy_alert _ = none

-- `x ?? y`
abbrev or_else : Option Json → Json → Json
or_else none y = y
or_else (some null) y = y
or_else (some x) y = x

-- the array of an artifact's alerts
abbrev alerts_of : Option Json → Option Items
alerts_of (some (array items)) = some items
alerts_of _ = none

-- `summary.total += 1`, and the pushes
unfoldable pub count_alert : PolicyAlertSummary → PolicyAlert → PolicyAlertSummary
count_alert s detail = record {
  alerts = s.alerts ++ detail ∷ [];
  error = if text_eq detail.action (codes "error") then s.error ++ detail ∷ [] else s.error;
  total = s.total + 1;
  warn = if text_eq detail.action (codes "warn") then s.warn ++ detail ∷ [] else s.warn;
}

abbrev pub no_alerts : PolicyAlertSummary
no_alerts = record { alerts = []; error = []; total = 0; warn = [] }

-- `String(value)`, by which a template shows a name or a version, is a parameter.
module _ (string_of : Json → Text) where
  -- `detail`
  unfoldable pub detail_of : Fields → Fields × Text × Text → PolicyAlert
  detail_of artifact (alert, action, kind) = record {
    action = action;
    artifact =
        string_of (or_else (prop (codes "name") artifact) (string (codes "<unnamed>")))
        ++ (codes "@"
            ++ string_of (or_else (prop (codes "version") artifact) (string (codes "?"))));
    severity = or_else (prop (codes "severity") alert) (string (codes "unknown"));
    kind = kind;
  }

  -- the loop over the alerts of an artifact
  unfoldable pub summarize_alerts : Fields → Items → PolicyAlertSummary → Option PolicyAlertSummary
  summarize_alerts artifact no_items s = some s
  summarize_alerts artifact (item alert alerts) s =
      then_option (is_resolved_policy_alert alert)
        (λ found. summarize_alerts artifact alerts (count_alert s (detail_of artifact found)))

  -- the body of the loop over the artifacts
  unfoldable pub summarize_artifact : Json → PolicyAlertSummary → Option PolicyAlertSummary
  summarize_artifact (object artifact) s =
      then_option (alerts_of (prop (codes "alerts") artifact))
        (λ alerts. summarize_alerts artifact alerts s)
  summarize_artifact _ s = none

  -- the loop over the artifacts
  unfoldable pub summarize_from : List Json → PolicyAlertSummary → Option PolicyAlertSummary
  summarize_from [] s = some s
  summarize_from (artifact ∷ artifacts) s =
      then_option (summarize_artifact artifact s) (λ next. summarize_from artifacts next)

  -- `summarizeResolvedPolicyAlerts`
  unfoldable pub summarize_resolved_policy_alerts : List Json → Option PolicyAlertSummary
  summarize_resolved_policy_alerts artifacts = summarize_from artifacts no_alerts
