-- ===== src/Text/Lines.antt =====
-- Splitting at line ends and joining again.
use socket_scan_patterns.Prelude.{ℕ, List, [], ◌∷◌, ◌==◌, if◌then◌else◌}
use socket_scan_patterns.Text.{Text}

abbrev onto_first : ℕ → List Text → List Text
onto_first c [] = (c ∷ []) ∷ []
onto_first c (l ∷ ls) = (c ∷ l) ∷ ls

-- `s.split(/\r?\n/)`
unfoldable pub split_lines : Text → List Text
split_lines [] = [] ∷ []
split_lines (c ∷ []) = if c == b'\n' then [] ∷ [] ∷ [] else (c ∷ []) ∷ []
split_lines (c ∷ d ∷ cs) =
    let rest = split_lines (d ∷ cs) in
    let after = split_lines cs in
    if c == b'\n'
    then [] ∷ rest
    else if c == b'\r'
    then (if d == b'\n' then [] ∷ after else onto_first c rest)
    else onto_first c rest
