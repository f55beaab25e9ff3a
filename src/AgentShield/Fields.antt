-- ===== src/AgentShield/Fields.antt =====
-- Reading the declared headers of a rule module by a pattern.
use socket_scan_patterns.Prelude.{ℕ, false, not, ◌&&◌, List, [], ◌∷◌, ◌==◌, if◌then◌else◌, map}
use socket_scan_patterns.Regex.Notation.{◌⨟◌, word, spaces, plus, maybe, quoted_body}
use socket_scan_patterns.Regex.{Rx, Match, unit, star, capture, line_start, all_matches, group_text}
use socket_scan_patterns.Text.{Text, codes, collapse_from, trim}

-- `AgentShieldRuleMeta`
pub record AgentShieldRuleMeta : Type 0 where
  pub category : Text
  pub description : Text
  pub id : Text
  pub name : Text
  pub severity : Text

-- `[^"]+`
abbrev unquoted : Rx
unquoted = plus (unit (λ c. not (c == b'"')))

-- KEY: "CAPTURE n", at four spaces
abbrev field : Text → ℕ → Rx → Rx
field key n body =
    word (codes "    ") ⨟ word key ⨟ word (codes ": \"") ⨟ capture n body ⨟ word (codes "\",")

abbrev newline : Rx
newline = word (codes "\n")

-- the five lines of a header, at exactly four spaces
abbrev header : Rx
header =
    line_start
    ⨟ field (codes "id") 1 unquoted
    ⨟ newline
    ⨟ field (codes "name") 2 (quoted_body b'"')
    ⨟ newline
    ⨟ word (codes "    description:")
    ⨟ spaces
    ⨟ maybe newline
    ⨟ star (unit (λ c. c == b' '))
    ⨟ word (codes "\"")
    ⨟ capture 3 (quoted_body b'"')
    ⨟ word (codes "\",")
    ⨟ newline
    ⨟ field (codes "severity") 4 unquoted
    ⨟ newline
    ⨟ field (codes "category") 5 unquoted

-- `.replace(/\\C/g, D)` for code units C and D
unfoldable pub replace_escape : ℕ → ℕ → Text → Text
replace_escape c d [] = []
replace_escape c d (a ∷ []) = a ∷ []
replace_escape c d (a ∷ b ∷ s) =
    let after = replace_escape c d s in
    let rest = replace_escape c d (b ∷ s) in if a == b'\\' && b == c then d ∷ after else a ∷ rest

-- `unescapeDoubleQuoted`
unfoldable pub unescape_double_quoted : Text → Text
unfolding replace_escape collapse_from
unescape_double_quoted raw = trim (
    collapse_from false
      (replace_escape b'\\' b'\\' (replace_escape b'"' b'"' (replace_escape b'n' b' ' raw))))

abbrev meta_of : Match → AgentShieldRuleMeta
meta_of m = record {
  category = group_text 5 m;
  description = unescape_double_quoted (group_text 3 m);
  id = group_text 1 m;
  name = unescape_double_quoted (group_text 2 m);
  severity = group_text 4 m;
}

-- `parseAgentShieldRules`
unfoldable pub parse_agent_shield_rules : Text → List AgentShieldRuleMeta
unfolding all_matches
parse_agent_shield_rules source = map meta_of (all_matches header source)
