-- ===== src/NpmScan/Ndjson.antt =====
-- scripts/fleet/registry/npm/scan/ndjson.mts: reading a full scan from a stream of lines.
pub mod Lines
pub mod Protocol
use socket_scan_patterns.Json.{Json, null, array, object, string, Fields, prop, keys}
use socket_scan_patterns.Prelude.{
  ℕ, ◌+◌, ◌*◌, Bool, true, false, not, ◌&&◌, ◌||◌, List, [], ◌∷◌, ◌++◌, Option, none, some, ◌==◌,
  ltb, if◌then◌else◌, length,
}
use socket_scan_patterns.Text.Order.{sort_texts}
use socket_scan_patterns.Text.{Text, codes, join, text_eq}

-- `FULL_SCAN_MAX_BYTES` and `FULL_SCAN_MAX_LINE_LENGTH`
abbrev pub full_scan_max_bytes : ℕ
full_scan_max_bytes = 128 * 1024 * 1024

abbrev pub full_scan_max_line_length : ℕ
full_scan_max_line_length = 4 * 1024 * 1024

-- The texts that `readFullScanNdjson` gives as its `reason`.
pub data Reason : Type 0 where
  malformed_ndjson misplaced_envelope mixed_evidence malformed_scores after_scores : Reason
  unsupported_chunk response_size line_size : Reason

-- `FullScanStreamResult`
pub data FullScanStreamResult : Type 0 where
  artifacts : List Json → FullScanStreamResult
  processing : FullScanStreamResult
  reason : Reason → FullScanStreamResult

-- what `consumeLine` reads and changes
pub record Progress : Type 0 where
  pub artifacts : List Json
  pub processing : Bool
  pub saw_scores : Bool

abbrev pub start : Progress
start = record { artifacts = []; processing = false; saw_scores = false }

-- what `consumeLine` returns: a reason, or the changed variables
pub data Step : Type 0 where
  stop : Reason → Step
  go : Progress → Step

-- `Object.keys(record).toSorted().join(',')`
abbrev pub key_list : Fields → Text
key_list fields = join (codes ",") (sort_texts (keys fields))

abbrev pub is_text : Text → Option Json → Bool
is_text t (some (string s)) = text_eq s t
is_text t _ = false

-- `isMatchingProcessingEnvelope`. An array has other keys than an object that matches.
unfoldable pub is_matching_processing_envelope : Json → Text → Bool
is_matching_processing_envelope (object fields) scan_id =
    text_eq (key_list fields) (codes "id,status")
    && is_text scan_id (prop (codes "id") fields)
    && is_text (codes "processing") (prop (codes "status") fields)
is_matching_processing_envelope _ scan_id = false

-- `value !== null && typeof value === 'object'`, for a member that is there
abbrev pub is_object_value : Option Json → Bool
is_object_value (some (object _)) = true
is_object_value (some (array _)) = true
is_object_value _ = false

-- `scoresRecordIsValid`: nothing where the value is no scores record
unfoldable pub scores_record_is_valid : Json → Option Bool
scores_record_is_valid (object fields) =
    if is_text (codes "scores") (prop (codes "_type") fields)
    then some (
        text_eq (key_list fields) (codes "_type,value")
        && is_object_value (prop (codes "value") fields))
    else none
scores_record_is_valid _ = none

abbrev pub has_some {ℓ} : {A : Type ℓ} → List A → Bool
has_some [] = false
has_some (x ∷ xs) = true

-- the end of `consumeLine`, by what `scoresRecordIsValid` says
unfoldable pub take_value : Option Bool → Json → Progress → Step
take_value (some valid) value s =
    if s.saw_scores || not valid then stop malformed_scores else go (record s { saw_scores = true })
take_value none value s =
    if s.saw_scores
    then stop after_scores
    else go (record s { artifacts = s.artifacts ++ value ∷ [] })

-- `rawLine` without a `\r` at its end
unfoldable pub without_return : Text → Text
without_return [] = []
without_return (c ∷ []) = if c == b'\r' then [] else c ∷ []
without_return (c ∷ d ∷ cs) = c ∷ without_return (d ∷ cs)

abbrev pub then_step : Step → (Progress → Step) → Step
then_step (stop r) next = stop r
then_step (go s) next = next s

-- how the text that came in ends: stopped, or with a line that no `\n` closes
pub data Drained : Type 0 where
  stopped : Reason → Drained
  left : Text → Progress → Drained

abbrev pub then_drain : Step → (Progress → Drained) → Drained
then_drain (stop r) next = stopped r
then_drain (go s) next = next s

abbrev pub then_read : Drained → (Text → Progress → FullScanStreamResult) → FullScanStreamResult
then_read (stopped r) next = reason r
then_read (left line s) next = next line s

-- the result behind the last line
abbrev pub verdict : Step → FullScanStreamResult
verdict (stop r) = reason r
verdict (go s) = if s.processing then processing else artifacts s.artifacts

-- a chunk of the stream: a text, bytes, or anything else
pub data Chunk : Type 0 where
  text : Text → Chunk
  bytes : List ℕ → Chunk
  unsupported : Chunk

-- The platform: `JSON.parse`, with nothing for a throw; `Buffer.byteLength`; and a TextDecoder, its
-- state, a call of `decode` with the flag `stream`, and the last call without bytes.
pub record Platform : Type 1 where
  pub json_parse : Text → Option Json
  pub byte_length : Text → ℕ
  pub Decoder : Type 0
  pub decode : Decoder → List ℕ → Text × Decoder
  pub flush : Decoder → Text

module _ (platform : Platform) (scan_id : Text) where
  -- `consumeLine` behind the parse
  unfoldable pub consume_value : Json → Progress → Step
  consume_value value s =
      if is_matching_processing_envelope value scan_id
      then (if s.processing || s.saw_scores || has_some s.artifacts
          then stop misplaced_envelope
          else go (record s { processing = true }))
      else if s.processing
      then stop mixed_evidence
      else take_value (scores_record_is_valid value) value s

  -- what a line holds: nothing, no JSON, or a value
  unfoldable pub consume_parsed : Option Json → Progress → Step
  consume_parsed none s = stop malformed_ndjson
  consume_parsed (some value) s = consume_value value s

  -- `consumeLine`, on the line without its `\r`
  unfoldable pub consume_text : Text → Progress → Step
  consume_text [] s = go s
  consume_text (c ∷ cs) s = consume_parsed (platform.json_parse (c ∷ cs)) s

  -- `consumeLine`
  unfoldable pub consume_line : Text → Progress → Step
  consume_line raw_line s = consume_text (without_return raw_line) s

  -- The loop over the newlines of `pending`, as one pass over its code units: the line so far, and
  -- what follows it.
  unfoldable pub drain : Text → Text → Progress → Drained
  drain line [] s = left line s
  drain line (c ∷ cs) s = elim (c == b'\n') [
    | true ↦
        if ltb full_scan_max_line_length (length line)
        then stopped line_size
        else then_drain (consume_line line s) (λ next. drain [] cs next)
    | false ↦ drain (line ++ c ∷ []) cs s
  ]

  -- what follows the loop over the chunks
  unfoldable pub finish : Text → Progress → FullScanStreamResult
  finish pending s =
      if ltb full_scan_max_line_length (length pending)
      then reason line_size
      else verdict (consume_line pending s)

  -- the body of the loop over the chunks, for a chunk as a text with its size, and the rest of the
  -- loop
  unfoldable pub take_chunk :
      ℕ → Text → Text → Progress → (Text → Progress → FullScanStreamResult) → FullScanStreamResult
  take_chunk total incoming pending s rest =
      if ltb full_scan_max_bytes total
      then reason response_size
      else then_read (drain [] (pending ++ incoming) s) (λ line next.
        if ltb full_scan_max_line_length (length line) then reason line_size else rest line next)

  -- the loop over the chunks
  unfoldable pub read_chunks :
      List Chunk → ℕ → platform.Decoder → Text → Progress → FullScanStreamResult
  read_chunks [] total decoder pending s = finish (pending ++ platform.flush decoder) s
  read_chunks (unsupported ∷ chunks) total decoder pending s = reason unsupported_chunk
  read_chunks (text t ∷ chunks) total decoder pending s =
      let size = total + platform.byte_length t in
      take_chunk size t pending s (λ line next. read_chunks chunks size decoder line next)
  read_chunks (bytes b ∷ chunks) total decoder pending s =
      let size = total + length b in
      let (t, decoder') = platform.decode decoder b in
      take_chunk size t pending s (λ line next. read_chunks chunks size decoder' line next)

  -- `readFullScanNdjson`, with the decoder that it makes
  unfoldable pub read_full_scan_ndjson : platform.Decoder → List Chunk → FullScanStreamResult
  read_full_scan_ndjson decoder chunks = read_chunks chunks 0 decoder [] start
