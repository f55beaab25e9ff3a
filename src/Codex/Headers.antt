-- ===== src/Codex/Headers.antt =====
-- The capabilities are those of the headers.
use socket_scan_patterns.Codex.{
  CodexCapability, Parsing, header_name, capability_of, flush, pushed, take_line, take_lines,
  unparsed, parse_codex_capabilities,
}
use socket_scan_patterns.Prelude.{
  List, [], ◌∷◌, ◌++◌, Option, none, some, ◌≡◌, refl, sym, ap, ◌∙◌, map, append_assoc, append-nil,
  Bool-cases, inl, inr,
}
use socket_scan_patterns.Text.Lines.{split_lines}
use socket_scan_patterns.Text.{Text, codes, starts_with, trim_start}

-- the name of a header, if it is one
abbrev pub named : Option Text → List Text
named (some (c ∷ cs)) = (c ∷ cs) ∷ []
named _ = []

-- the names of the header lines, in order
abbrev pub header_names : List Text → List Text
header_names [] = []
header_names (line ∷ lines) = named (header_name line) ++ header_names lines

abbrev names_of : List CodexCapability → List Text
names_of = map (λ c. c.name)

-- the names that were read: those of the capabilities, and the one that is open
abbrev read_names : Parsing → List Text
read_names s = names_of s.capabilities ++ named s.name

names_of-concat :
    (cs : List CodexCapability) (c : CodexCapability)
    → names_of (cs ++ c ∷ []) ≡ names_of cs ++ c.name ∷ []
names_of-concat [] c = refl
names_of-concat (d ∷ ds) c = ap (λ (l : List Text). d.name ∷ l) (names_of-concat ds c)

flushed-names :
    (cs : List CodexCapability) (name : Option Text) (body : List Text)
    → names_of (flush (record { capabilities = cs; name = name; body = body })).capabilities
      ≡ names_of cs ++ named name
unfolding capability_of
flushed-names cs none body = sym (append-nil (names_of cs))
flushed-names cs (some []) body = sym (append-nil (names_of cs))
flushed-names cs (some (c ∷ name)) body = names_of-concat cs _

-- the names that were read do not change by a flush, or a line of a body
flushed-read :
    (cs : List CodexCapability) (name : Option Text) (body : List Text)
    → read_names (flush (record { capabilities = cs; name = name; body = body }))
      ≡ names_of cs ++ named name
unfolding capability_of
flushed-read cs none body = refl
flushed-read cs (some []) body = refl
flushed-read cs (some (c ∷ name)) body = append-nil _ ∙ names_of-concat cs _

pushed-read :
    (cs : List CodexCapability) (name : Option Text) (body : List Text) (line : Text)
    → read_names (pushed name line (record { capabilities = cs; name = name; body = body }))
      ≡ names_of cs ++ named name
pushed-read cs none body line = refl
pushed-read cs (some []) body line = refl
pushed-read cs (some (c ∷ name)) body line = refl

take_line-read :
    (header : Option Text) (line : Text) (s : Parsing)
    → read_names (take_line header line s) ≡ read_names s ++ named header
unfolding take_line
take_line-read (some h) line s =
    ap (λ (l : List Text). l ++ named (some h)) (flushed-names s.capabilities s.name s.body)
take_line-read none line s = elim (Bool-cases (starts_with (codes "[") (trim_start line))) [
  | inl e ↦ rw e (flushed-read s.capabilities s.name s.body ∙ sym (append-nil (read_names s)))
  | inr e ↦ rw e (pushed-read s.capabilities s.name s.body line ∙ sym (append-nil (read_names s)))
]

take_lines-read :
    (lines : List Text) (s : Parsing)
    → read_names (take_lines lines s) ≡ read_names s ++ header_names lines
unfolding take_lines
take_lines-read [] s = sym (append-nil (read_names s))
take_lines-read (line ∷ lines) s =
    take_lines-read lines (take_line (header_name line) line s)
    ∙ ap (λ (l : List Text). l ++ header_names lines) (take_line-read (header_name line) line s)
    ∙ append_assoc (read_names s) (named (header_name line)) (header_names lines)

-- The capabilities that are parsed have the names of the header lines of the profiles, in order,
-- one for each.
pub parse_codex_capabilities-header_names :
    (toml : Text)
    → map (λ c. c.name) (parse_codex_capabilities toml) ≡ header_names (split_lines toml)
unfolding parse_codex_capabilities
parse_codex_capabilities-header_names toml =
    let s = take_lines (split_lines toml) unparsed in
    flushed-names s.capabilities s.name s.body ∙ take_lines-read (split_lines toml) unparsed
