-- ===== src/NpmScan/Ndjson/Protocol.antt =====
-- Which lines give which result.
use socket_scan_patterns.Json.{Json}
use socket_scan_patterns.NpmScan.Ndjson.Lines.{read_lines}
use socket_scan_patterns.NpmScan.Ndjson.{
  Platform, Reason, Progress, start, Step, stop, go, then_step, verdict, consume_line, consume_text,
  consume_parsed, consume_value, take_value, without_return, has_some, artifacts, malformed_ndjson,
  is_matching_processing_envelope, scores_record_is_valid,
}
use socket_scan_patterns.Prelude.{
  Bool, true, false, List, [], ◌∷◌, ◌++◌, Option, none, some, ◌≡◌, ◌≢◌, inl, inr, refl, sym, ap,
  ◌∙◌, subst, ◌↔◌, Bool-cases, Option-cases, some_injective, append_assoc, append-nil,
}
use socket_scan_patterns.Text.{Text}

module _ (platform : Platform) (scan_id : Text) where
  abbrev is_envelope : Json → Bool
  is_envelope value = is_matching_processing_envelope value scan_id

  -- A stream of artifacts, which may end with one scores record.
  pub data IsArtifactStream : List Json → List Json → Type 0 where
    done : IsArtifactStream [] []
    scores :
        (value : Json)
        → is_envelope value ≡ false
        → scores_record_is_valid value ≡ some true
        → IsArtifactStream (value ∷ []) []
    more :
        (value : Json) (values found : List Json)
        → is_envelope value ≡ false
        → scores_record_is_valid value ≡ none
        → IsArtifactStream values found
        → IsArtifactStream (value ∷ values) (value ∷ found)

  abbrev pub cons_values : Option Json → Option (List Json) → Option (List Json)
  cons_values (some value) (some values) = some (value ∷ values)
  cons_values _ _ = none

  -- with the value of a line, unless it is blank
  abbrev pub line_values : Text → Option (List Json) → Option (List Json)
  line_values [] rest = rest
  line_values (c ∷ cs) rest = cons_values (platform.json_parse (c ∷ cs)) rest

  -- the values of the lines that are not blank, if all of them parse
  abbrev pub values_of : List Text → Option (List Json)
  values_of [] = some []
  values_of (line ∷ lines) = let rest = values_of lines in line_values (without_return line) rest

  abbrev read_values : List Json → Progress → Step
  read_values [] s = go s
  read_values (value ∷ values) s =
      then_step (consume_value platform scan_id value s) (λ next. read_values values next)

  -- the progress behind artifacts
  abbrev taken : List Json → Progress
  taken found = record { artifacts = found; processing = false; saw_scores = false }

  then_step_ext :
      (result : Step) (f g : Progress → Step)
      → ((next : Progress) → f next ≡ g next)
      → then_step result f ≡ then_step result g
  then_step_ext (stop r) f g h = refl
  then_step_ext (go next) f g h = h next

  parsed-some :
      (parsed : Option Json) (rest : Option (List Json)) (f : Progress → Step) (values : List Json)
      (s : Progress)
      → ((others : List Json) (next : Progress)
          → rest ≡ some others
          → f next ≡ read_values others next)
      → cons_values parsed rest ≡ some values
      → then_step (consume_parsed platform scan_id parsed s) f ≡ read_values values s
  unfolding consume_parsed
  parsed-some none rest f values s ih h = cc
  parsed-some (some value) none f values s ih h = cc
  parsed-some (some value) (some others) f values s ih h =
      subst
        (λ (vs : List Json).
          then_step (consume_value platform scan_id value s) f ≡ read_values vs s)
        (some_injective h)
        (then_step_ext (consume_value platform scan_id value s) f (read_values others)
          (λ next. ih others next refl))

  line-some :
      (line : Text) (rest : Option (List Json)) (f : Progress → Step) (values : List Json)
      (s : Progress)
      → ((others : List Json) (next : Progress)
          → rest ≡ some others
          → f next ≡ read_values others next)
      → line_values line rest ≡ some values
      → then_step (consume_text platform scan_id line s) f ≡ read_values values s
  unfolding consume_text
  line-some [] rest f values s ih h = ih values s h
  line-some (c ∷ cs) rest f values s ih h =
      parsed-some (platform.json_parse (c ∷ cs)) rest f values s ih h

  -- where all lines parse, reading them is reading their values
  read_lines-some :
      (lines : List Text) (values : List Json) (s : Progress)
      → values_of lines ≡ some values
      → read_lines platform scan_id lines s ≡ read_values values s
  unfolding consume_line
  read_lines-some [] values s h = ap (λ (vs : List Json). read_values vs s) (some_injective h)
  read_lines-some (line ∷ lines) values s h =
      line-some (without_return line) (values_of lines) (read_lines platform scan_id lines) values s
        (λ others next e. read_lines-some lines others next e) h

  Stops : Step → Type 0
  Stops result = (r : Reason) × (result ≡ stop r)

  then_step-Stops :
      (result : Step) (f : Progress → Step)
      → ((next : Progress) → Stops (f next))
      → Stops (then_step result f)
  unfolding Stops
  then_step-Stops (stop r) f h = (r, refl)
  then_step-Stops (go next) f h = h next

  line-none :
      (line : Text) (rest : Option (List Json)) (f : Progress → Step) (s : Progress)
      → (rest ≡ none → (next : Progress) → Stops (f next))
      → line_values line rest ≡ none
      → Stops (then_step (consume_text platform scan_id line s) f)
  unfolding consume_text consume_parsed Stops
  line-none [] rest f s ih h = ih h s
  line-none (c ∷ cs) rest f s ih h = elim (Option-cases (platform.json_parse (c ∷ cs))) [
    | inl e ↦ (malformed_ndjson, rw e refl)
    | inr (value, e) ↦ elim (Option-cases rest) [
      | inl e' ↦ then_step-Stops (consume_text platform scan_id (c ∷ cs) s) f (ih e')
      | inr (others, e') ↦ cc (rw (e, e') at h)
    ]
  ]

  -- where some line does not parse, reading stops
  read_lines-none :
      (lines : List Text) (s : Progress)
      → values_of lines ≡ none
      → Stops (read_lines platform scan_id lines s)
  unfolding consume_line
  read_lines-none [] s h = cc
  read_lines-none (line ∷ lines) s h =
      line-none (without_return line) (values_of lines) (read_lines platform scan_id lines) s
        (λ e next. read_lines-none lines next e) h

  artifacts_injective : {a b : List Json} → artifacts a ≡ artifacts b → a ≡ b
  artifacts_injective h = cc

  never_artifacts :
      (values found : List Json) (s : Progress)
      → s.processing ≡ true
      → verdict (read_values values s) ≢ artifacts found
  unfolding consume_value
  never_artifacts [] found s p h = cc (rw p at h)
  never_artifacts (value ∷ values) found s p h = elim (Bool-cases (is_envelope value)) [
    | inl e ↦ cc (rw (e, consume_value, p) at h)
    | inr e ↦ cc (rw (e, consume_value, p) at h)
  ]

  abbrev scored : List Json → Progress
  scored found = record { artifacts = found; processing = false; saw_scores = true }

  after_scores_end :
      (values found before : List Json)
      → verdict (read_values values (scored before)) ≡ artifacts found
      → (values ≡ []) × (before ≡ found)
  unfolding consume_value take_value
  after_scores_end [] found before h = (refl, artifacts_injective h)
  after_scores_end (value ∷ values) found before h = elim (Bool-cases (is_envelope value)) [
    | inl e ↦ cc (rw (e, consume_value) at h)
    | inr e ↦ elim (Option-cases (scores_record_is_valid value)) [
      | inl n ↦ cc (rw (e, n, consume_value, take_value) at h)
      | inr (valid, n) ↦ cc (rw (e, n, consume_value, take_value) at h)
    ]
  ]

  -- What artifacts come out of values behind the artifacts that were taken.
  IsRest : List Json → List Json → List Json → Type 0
  IsRest values before found =
      (rest : List Json) × (before ++ rest ≡ found) × IsArtifactStream values rest

  IsRest-of :
      (values before found : List Json)
      → verdict (read_values values (taken before)) ≡ artifacts found
      → IsRest values before found
  unfolding consume_value take_value IsRest
  IsRest-of [] before found h = ([], append-nil before ∙ artifacts_injective h, done)
  IsRest-of (value ∷ values) before found h = elim (Bool-cases (is_envelope value)) [
    | inl e ↦ elim (Bool-cases (has_some before)) [
      | inl late ↦ cc (rw (e, consume_value, late) at h)
      | inr first ↦ absurd (never_artifacts values found _ refl (rw (e, consume_value, first) at h))
    ]
    | inr e ↦ elim (Option-cases (scores_record_is_valid value)) [
      | inl n ↦
          let (rest, same, stream) =
            IsRest-of values (before ++ value ∷ []) found
              (rw (e, n, consume_value, take_value) at h) in
          (
            value ∷ rest,
            sym (append_assoc before (value ∷ []) rest) ∙ same,
            more value values rest e n stream,
          )
      | inr (true, n) ↦
          let (ended, same) =
            after_scores_end values found before (rw (e, n, consume_value, take_value) at h) in
          (
            [],
            append-nil before ∙ same,
            subst (λ (vs : List Json). IsArtifactStream (value ∷ vs) []) (sym ended)
                (scores value e n),
          )
      | inr (false, n) ↦ cc (rw (e, n, consume_value, take_value) at h)
    ]
  ]

  artifacts-of_stream :
      {values found : List Json} (before : List Json)
      → IsArtifactStream values found
      → verdict (read_values values (taken before)) ≡ artifacts (before ++ found)
  unfolding consume_value take_value
  artifacts-of_stream before done = rw (append-nil before) refl
  artifacts-of_stream before (scores value e n) =
      rw (e, n, consume_value, take_value, append-nil before) refl
  artifacts-of_stream before (more value values found e n stream) =
      rw (e, n, consume_value, take_value)
        (artifacts-of_stream (before ++ value ∷ []) stream
          ∙ ap artifacts (append_assoc before (value ∷ []) found))

  -- Consuming lines from the start yields artifacts exactly where every line that is not blank
  -- parses, and the values are those artifacts, none of them an envelope or a scores record, with
  -- at most one valid scores record behind them.
  pub read_lines-artifacts_iff :
      (lines : List Text) (found : List Json)
      → (verdict (read_lines platform scan_id lines start) ≡ artifacts found)
        ↔ ((values : List Json) × (values_of lines ≡ some values) × IsArtifactStream values found)
  unfolding IsRest Stops
  read_lines-artifacts_iff lines found = (
    λ h. elim (Option-cases (values_of lines)) [
      | inl none_of ↦
          let (r, stopped_at) = read_lines-none lines start none_of in cc (rw stopped_at at h)
      | inr (values, e) ↦
          let (rest, same, stream) =
            IsRest-of values [] found (rw (read_lines-some lines values start e) at h) in
          (values, e, subst (IsArtifactStream values) same stream)
    ],
    λ (values, e, stream).
        rw (read_lines-some lines values start e) (artifacts-of_stream [] stream),
  )
