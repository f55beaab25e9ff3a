-- ===== src/Zizmor/Docs.antt =====
-- Reading the sections of zizmor's audit documentation.
use socket_scan_patterns.Prelude.{
  Bool, false, not, ◌||◌, List, [], ◌∷◌, ◌++◌, ◌==◌, if◌then◌else◌, map, take, length, ◌-◌,
}
use socket_scan_patterns.Regex.Notation.{◌⨟◌, word, spaces, plus}
use socket_scan_patterns.Regex.{
  Rx, Match, unit, capture, line_start, line_end, text_start, all_matches, group_text, test,
}
use socket_scan_patterns.Text.{
  Text, codes, collapse_from, is_lower, is_digit, is_space, join, starts_with, trim,
}
use socket_scan_patterns.Text.Lines.{split_lines}

-- `ZizmorAuditDoc`
pub record ZizmorAuditDoc : Type 0 where
  pub id : Text
  pub summary : Text

-- /^## `([a-z0-9-]+)`\s*$/gm
abbrev section : Rx
section =
    line_start
    ⨟ word (codes "## `")
    ⨟ capture 1 (plus (unit (λ c. is_lower c || is_digit c || c == b'-')))
    ⨟ word (codes "`")
    ⨟ spaces
    ⨟ line_end

-- /^\[[^\]]+\]:\s/
abbrev link_definition : Rx
link_definition =
    text_start
    ⨟ word (codes "[")
    ⨟ plus (unit (λ c. not (c == b']')))
    ⨟ word (codes "]:")
    ⨟ unit is_space

-- a line of the capability table, a subheading, an admonition or a link definition
unfoldable pub is_not_prose : Text → Bool
unfolding test
is_not_prose line =
    starts_with (codes "|") line
    || starts_with (codes "###") line
    || starts_with (codes "!!!") line
    || test link_definition line

-- leaving the loop if a paragraph has been read, and skipping the line if not
abbrev end_or_skip : List Text → List Text → List Text
end_or_skip [] skipped = skipped
end_or_skip (line ∷ lines) skipped = line ∷ lines

-- the loop of `extractZizmorSummary`, over trimmed lines
unfoldable pub paragraph_from : List Text → List Text → List Text
paragraph_from [] paragraph = paragraph
paragraph_from ([] ∷ lines) paragraph = end_or_skip paragraph (paragraph_from lines paragraph)
paragraph_from ((c ∷ cs) ∷ lines) paragraph =
    let skipped = paragraph_from lines paragraph in
    let longer = paragraph_from lines (paragraph ++ (c ∷ cs) ∷ []) in
    if is_not_prose (c ∷ cs) then end_or_skip paragraph skipped else longer

abbrev without_first : List Text → List Text
without_first [] = []
without_first (line ∷ lines) = lines

-- `extractZizmorSummary`
unfoldable pub extract_zizmor_summary : Text → Text
unfolding paragraph_from
extract_zizmor_summary section_body = trim (
    collapse_from false
      (join (codes " ") (paragraph_from (map trim (without_first (split_lines section_body))) [])))

-- what stands between the start of a heading and the start of the next one, or the end
unfoldable pub docs_of : List Match → List ZizmorAuditDoc
docs_of [] = []
docs_of (m ∷ []) =
    record { id = group_text 1 m; summary = extract_zizmor_summary m.start.rest } ∷ []
docs_of (m ∷ next ∷ ms) =
    record {
      id = group_text 1 m;
      summary =
          extract_zizmor_summary (take (length m.start.rest - length next.start.rest) m.start.rest);
    }
    ∷ docs_of (next ∷ ms)

-- `parseZizmorAuditDocs`
unfoldable pub parse_zizmor_audit_docs : Text → List ZizmorAuditDoc
unfolding all_matches docs_of
parse_zizmor_audit_docs markdown = docs_of (all_matches section markdown)
