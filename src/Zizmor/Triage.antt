-- ===== src/Zizmor/Triage.antt =====
-- Which triages pass.
use mathlib.Core.Bool.{Bool-set}
use mathlib.Core.List.{Mem, mem-cons, mem-cons_self, not-mem-nil}
use mathlib.Core.Logic.Or
use socket_scan_patterns.Emit.{DerivedRowSet, assert_rows_present}
use socket_scan_patterns.Failure.{
  Failure, ok, err, bind-eq-ok, ok_injective, untriaged_audits, stale_audits,
}
use socket_scan_patterns.Prelude.{
  not, List, [], ◌∷◌, Option, none, some, ◌≡◌, ◌≢◌, refl, ap, ◌∙◌, subst, ◌↔◌, Bool-cases, inl, inr,
  keep, map,
}
use socket_scan_patterns.Schema.{PatternRule}
use socket_scan_patterns.Text.{Text}
use socket_scan_patterns.TextSet.{has, get, add_all}
use socket_scan_patterns.TextSet.Laws.{has→Mem, Mem→has, Mem-add_all_iff}
use socket_scan_patterns.Upstream.{UpstreamSlice}
use socket_scan_patterns.Zizmor.Docs.{ZizmorAuditDoc}
use socket_scan_patterns.Zizmor.Rows.{
  IsExplained, IsAuditRow, is_unexplained-IsExplained_iff, IsAuditRow-of, row-eq,
}
use socket_scan_patterns.Zizmor.{
  StatusMap, ZizmorAuditStatusEntry, unlisted, stale, refuse, is_unexplained, checked_row,
  zizmor_rows, triage,
}

-- The filter for ids that are not members is empty exactly if all are members.
keep-nil :
    (xs ys : List Text) → keep (λ id. not (has id ys)) xs ≡ [] → (id : Text) → Mem id xs → Mem id ys
keep-nil [] ys h id m = absurd (not-mem-nil m)
keep-nil (x ∷ xs) ys h id m = elim (Bool-cases (has x ys)) [
  | inl e ↦ has→Mem id ys (
      Or.elim (Bool-set _ _) (mem-cons.0 m) (λ same. ap (λ (t : Text). has t ys) same ∙ e)
        (λ n. Mem→has id ys (keep-nil xs ys (rw e at h) id n)))
  | inr e ↦ cc (rw e at h)
]

nil-keep :
    (xs ys : List Text)
    → ((id : Text) → Mem id xs → Mem id ys)
    → keep (λ id. not (has id ys)) xs ≡ []
nil-keep [] ys h = refl
nil-keep (x ∷ xs) ys h =
    rw (Mem→has x ys (h x mem-cons_self), nil-keep xs ys (λ id m. h id (mem-cons.1 (Or.inr m))))
      refl

refuse-ok :
    (refusal : List Text → Failure) (ids : List Text) (u : Unit {0})
    → refuse (λ l. err (refusal l)) ids ≡ ok u
    → ids ≡ []
refuse-ok refusal [] u h = refl
refuse-ok refusal (id ∷ ids) u h = cc

abbrev pub doc_ids : List ZizmorAuditDoc → List Text
doc_ids = map (λ d. d.id)

abbrev pub status_ids : StatusMap → List Text
status_ids = map (λ e. e.0)

module _ (slice : UpstreamSlice) (source_file : Text) where
  -- The rows are those of the docs, in order, each with its entry, which is explained.
  abbrev pub IsChecklist : StatusMap → List ZizmorAuditDoc → List PatternRule → Type 0
  IsChecklist statuses [] [] = Unit
  IsChecklist statuses (doc ∷ docs) (row ∷ rows) =
      ((e : ZizmorAuditStatusEntry) × (get doc.id statuses ≡ some e)
        × IsExplained e
        × IsAuditRow slice source_file doc e row)
      × IsChecklist statuses docs rows
  IsChecklist statuses _ _ = ⊥

  -- What a triage that passes is.
  pub record IsTriaged (docs : List ZizmorAuditDoc) (statuses : StatusMap) (set : DerivedRowSet)
      : Type 0 where
    pub same_ids : (id : Text) → Mem id (doc_ids docs) ↔ Mem id (status_ids statuses)
    pub has_docs : docs ≢ []
    pub rows : IsChecklist statuses docs set.rules
    pub set_is : record { rules = set.rules; sources = slice.source ∷ [] } ≡ set

  checked_row-ok :
      (doc : ZizmorAuditDoc) (found : Option ZizmorAuditStatusEntry) (row : PatternRule)
      → checked_row slice source_file doc found ≡ ok row
      → (e : ZizmorAuditStatusEntry) × (found ≡ some e)
        × IsExplained e
        × IsAuditRow slice source_file doc e row
  unfolding checked_row
  checked_row-ok doc none row h = cc
  checked_row-ok doc (some e) row h = elim (Bool-cases (is_unexplained e)) [
    | inl bad ↦ cc (rw bad at h)
    | inr good ↦ (
      e,
      refl,
      (is_unexplained-IsExplained_iff e).0 good,
      subst (IsAuditRow slice source_file doc e) (ok_injective (rw good at h))
          (IsAuditRow-of slice source_file doc e),
    )
  ]

  zizmor_rows-ok :
      (statuses : StatusMap) (docs : List ZizmorAuditDoc) (rows : List PatternRule)
      → zizmor_rows slice source_file statuses docs ≡ ok rows
      → IsChecklist statuses docs rows
  unfolding zizmor_rows
  zizmor_rows-ok statuses [] rows h = subst (IsChecklist statuses []) (ok_injective h) tt
  zizmor_rows-ok statuses (doc ∷ docs) rows h =
      let (row, checked, rest) = bind-eq-ok (checked_row slice source_file doc _) _ h in
      let (more, others, done) = bind-eq-ok (zizmor_rows slice source_file statuses docs) _ rest in
      subst (IsChecklist statuses (doc ∷ docs)) (ok_injective done)
        (checked_row-ok doc _ row checked, zizmor_rows-ok statuses docs more others)

  zizmor_rows-made :
      (statuses : StatusMap) (docs : List ZizmorAuditDoc) (rows : List PatternRule)
      → IsChecklist statuses docs rows
      → zizmor_rows slice source_file statuses docs ≡ ok rows
  unfolding zizmor_rows checked_row
  zizmor_rows-made statuses [] [] i = refl
  zizmor_rows-made statuses [] (row ∷ rows) i = absurd i
  zizmor_rows-made statuses (doc ∷ docs) [] i = absurd i
  zizmor_rows-made statuses (doc ∷ docs) (row ∷ rows) ((e, found, good, same), i) =
      rw
        (
          found,
          (is_unexplained-IsExplained_iff e).1 good,
          zizmor_rows-made statuses docs rows i,
          row-eq slice source_file doc e row same,
        )
        refl

  rows-has_docs :
      (statuses : StatusMap) (docs : List ZizmorAuditDoc) (rows : List PatternRule)
      (generator : Text) (u : Unit {0})
      → IsChecklist statuses docs rows
      → assert_rows_present rows generator source_file ≡ ok u
      → docs ≢ []
  unfolding assert_rows_present
  rows-has_docs statuses [] [] generator u i h = cc
  rows-has_docs statuses [] (row ∷ rows) generator u i h = absurd i
  rows-has_docs statuses (doc ∷ docs) rows generator u i h = λ e. cc

  docs-present :
      (statuses : StatusMap) (docs : List ZizmorAuditDoc) (rows : List PatternRule)
      (generator : Text)
      → IsChecklist statuses docs rows
      → docs ≢ []
      → assert_rows_present rows generator source_file ≡ ok tt
  unfolding assert_rows_present
  docs-present statuses [] rows generator i h = absurd (h refl)
  docs-present statuses (doc ∷ docs) [] generator i h = absurd i
  docs-present statuses (doc ∷ docs) (row ∷ rows) generator i h = refl

  triage-ok :
      (docs : List ZizmorAuditDoc) (statuses : StatusMap) (set : DerivedRowSet)
      → triage slice source_file docs statuses ≡ ok set
      → IsTriaged docs statuses set
  unfolding triage assert_rows_present
  triage-ok docs statuses set h =
      let (u, all_listed, h') =
        bind-eq-ok (refuse (λ ids. err (untriaged_audits ids)) (unlisted statuses docs)) _ h in
      let (v, none_stale, h'') =
        bind-eq-ok (refuse (λ ids. err (stale_audits ids)) (stale statuses docs)) _ h' in
      let (rules, checked, h''') = bind-eq-ok (zizmor_rows slice source_file statuses docs) _ h'' in
      let (w, present, done) = bind-eq-ok (assert_rows_present rules _ _) _ h''' in
      let checklist = zizmor_rows-ok statuses docs rules checked in
      subst (IsTriaged docs statuses) (ok_injective done) record {
        same_ids = λ id. (
          λ m.
              keep-nil (doc_ids docs) (status_ids statuses)
                (refuse-ok untriaged_audits _ u all_listed) id m,
          λ m. (Mem-add_all_iff id (doc_ids docs)).0 (
              keep-nil (status_ids statuses) (add_all (doc_ids docs) [])
                (refuse-ok stale_audits _ v none_stale) id m),
        );
        has_docs = rows-has_docs statuses docs rules _ w checklist present;
        rows = checklist;
        set_is = refl;
      }

  triage-made :
      (docs : List ZizmorAuditDoc) (statuses : StatusMap) (set : DerivedRowSet)
      → IsTriaged docs statuses set
      → triage slice source_file docs statuses ≡ ok set
  unfolding triage
  triage-made docs statuses set i =
      let listed : unlisted statuses docs ≡ [] =
        nil-keep (doc_ids docs) (status_ids statuses) (λ id. (i.same_ids id).0) in
      let current : stale statuses docs ≡ [] =
        nil-keep (status_ids statuses) (add_all (doc_ids docs) [])
          (λ id m. (Mem-add_all_iff id (doc_ids docs)).1 ((i.same_ids id).1 m)) in
      rw
        (
          listed,
          current,
          zizmor_rows-made statuses docs set.rules i.rows,
          docs-present statuses docs set.rules _ i.rows i.has_docs,
        )
        (ap ok i.set_is)

  -- A triage passes exactly if the docs, which are not empty, and the status map have the same
  -- ids, and every declined audit has a reason; it then returns one row for each audit of the
  -- docs, in order, with the severity of its status (declined info, implemented medium, planned
  -- low), and as its description the summary and behind it the reason, if the entry has one.
  pub triage-ok_iff :
      (docs : List ZizmorAuditDoc) (statuses : StatusMap) (set : DerivedRowSet)
      → (triage slice source_file docs statuses ≡ ok set) ↔ IsTriaged docs statuses set
  triage-ok_iff docs statuses set = (triage-ok docs statuses set, triage-made docs statuses set)
