-- ===== src/Zizmor/Rows.antt =====
-- What the row of an audit says, and when a declined audit is explained.
use socket_scan_patterns.Prelude.{
  ℕ, false, ◌++◌, sym, some_injective, [], ◌∷◌, Option, none, some, ◌≡◌, ◌≢◌, refl, ◌↔◌,
}
use socket_scan_patterns.Schema.{PatternRule, PatternSeverity, info, medium, low, js, audit}
use socket_scan_patterns.Text.{Text, codes}
use socket_scan_patterns.Upstream.{UpstreamSlice}
use socket_scan_patterns.Zizmor.Docs.{ZizmorAuditDoc}
use socket_scan_patterns.Zizmor.{
  ZizmorAuditStatus, declined, implemented, planned, ZizmorAuditStatusEntry, status_text,
  zizmor_status_to_severity, description_of, is_unexplained, zizmor_row,
}

-- The posture of an audit: the word of its status, and the severity that goes with it.
pub data Posture : ZizmorAuditStatus → Text → PatternSeverity → Type 0 where
  out_of_scope : Posture declined (codes "declined") info
  in_place : Posture implemented (codes "implemented") medium
  on_the_way : Posture planned (codes "planned") low

-- The description of an audit: its summary, and behind it the reason of its entry, if it has one.
pub data Description (summary : Text) : Option Text → Text → Type 0 where
  no_reason : Description summary none summary
  empty_reason : Description summary (some []) summary
  with_reason :
      (c : ℕ) (cs : Text)
      → Description summary (some (c ∷ cs)) (summary ++ (codes " Declined: " ++ c ∷ cs))

-- A declined audit has a reason that is not empty.
abbrev pub IsExplained : ZizmorAuditStatusEntry → Type 0
IsExplained e = e.status ≡ declined → (reason : Text) × (e.reason ≡ some reason) × (reason ≢ [])

Posture-of :
    (status : ZizmorAuditStatus)
    → Posture status (status_text status) (zizmor_status_to_severity status)
unfolding zizmor_status_to_severity
Posture-of declined = out_of_scope
Posture-of implemented = in_place
Posture-of planned = on_the_way

Posture-eq :
    (status : ZizmorAuditStatus) (word : Text) (severity : PatternSeverity)
    → Posture status word severity
    → (status_text status ≡ word) × (zizmor_status_to_severity status ≡ severity)
unfolding zizmor_status_to_severity
Posture-eq declined _ _ out_of_scope = (refl, refl)
Posture-eq implemented _ _ in_place = (refl, refl)
Posture-eq planned _ _ on_the_way = (refl, refl)

Description-of :
    (summary : Text) (reason : Option Text)
    → Description summary reason (description_of summary reason)
Description-of summary none = no_reason
Description-of summary (some []) = empty_reason
Description-of summary (some (c ∷ cs)) = with_reason c cs

Description-eq :
    (summary : Text) (reason : Option Text) (text : Text)
    → Description summary reason text
    → description_of summary reason ≡ text
Description-eq summary none _ no_reason = refl
Description-eq summary (some []) _ empty_reason = refl
Description-eq summary _ _ (with_reason c cs) = refl

IsExplained-by_iff :
    (status : ZizmorAuditStatus) (reason : Option Text)
    → (is_unexplained (record { status = status; reason = reason }) ≡ false)
      ↔ IsExplained (record { status = status; reason = reason })
IsExplained-by_iff declined none = (λ h. cc, λ x. let (r, e, n) = x refl in cc e)
IsExplained-by_iff declined (some []) =
    (λ h. cc, λ x. let (r, e, n) = x refl in absurd (n (sym (some_injective e))))
IsExplained-by_iff declined (some (c ∷ cs)) = (λ h d. (c ∷ cs, refl, λ e. cc e), λ x. refl)
IsExplained-by_iff implemented reason = (λ h d. cc d, λ x. refl)
IsExplained-by_iff planned reason = (λ h d. cc d, λ x. refl)

pub is_unexplained-IsExplained_iff :
    (e : ZizmorAuditStatusEntry) → (is_unexplained e ≡ false) ↔ IsExplained e
is_unexplained-IsExplained_iff e = IsExplained-by_iff e.status e.reason

module _ (slice : UpstreamSlice) (source_file : Text) where
  -- The row of an audit with its entry.
  pub record IsAuditRow (doc : ZizmorAuditDoc) (e : ZizmorAuditStatusEntry) (row : PatternRule)
      : Type 0 where
    pub word : Text
    pub severity : PatternSeverity
    pub description : Text
    pub posture : Posture e.status word severity
    pub described : Description doc.summary e.reason description
    pub row_is : row ≡ record {
      category = word;
      description = description;
      dialect = js;
      entropy = none;
      id = codes "zizmor:" ++ doc.id;
      keywords = [];
      kind = audit;
      path_regex_source = none;
      provenance = record {
        license = slice.license;
        rule_id = doc.id;
        source = slice.source;
        source_file = source_file;
      };
      regex_flags = [];
      regex_source = none;
      severity = severity;
      title = doc.id;
    }

  pub IsAuditRow-of :
      (doc : ZizmorAuditDoc) (e : ZizmorAuditStatusEntry)
      → IsAuditRow doc e (zizmor_row slice source_file doc e)
  IsAuditRow-of doc e = record {
    word = status_text e.status;
    severity = zizmor_status_to_severity e.status;
    description = description_of doc.summary e.reason;
    posture = Posture-of e.status;
    described = Description-of doc.summary e.reason;
    row_is = refl;
  }

  pub row-eq :
      (doc : ZizmorAuditDoc) (e : ZizmorAuditStatusEntry) (row : PatternRule)
      → IsAuditRow doc e row
      → zizmor_row slice source_file doc e ≡ row
  row-eq doc e row r =
      let (word, severity) = Posture-eq _ _ _ r.posture in
      rw (word, severity, Description-eq _ _ _ r.described) (sym r.row_is)
