-- ===== src/Tests/Samples.antt =====
-- Rules, row sets, a collation and an engine to run on.
use mathlib.Core.List.{Mem, mem-cons, not-mem-nil}
use mathlib.Core.Logic.Or
use socket_scan_patterns.Emit.Order.{IsCollation, HasDistinctIds, flip}
use socket_scan_patterns.Emit.{DerivedRowSet}
use socket_scan_patterns.Loader.Laws.{PatternRule-set}
use socket_scan_patterns.Prelude.{
  ℕ, zero, suc, Bool, true, not, List, [], ◌∷◌, ◌++◌, if◌then◌else◌, Option, none, some, ◌≡◌, refl,
  sym, ap₂, ◌∙◌, arith,
}
use socket_scan_patterns.Schema.{
  spdx, PatternRule, PatternSeverity, critical, high, low, PatternKind, path, regex, js,
}
use socket_scan_patterns.Text.Order.{text_compare, text_le-IsOrder}
use socket_scan_patterns.Text.Numbers.{number_text}
use socket_scan_patterns.Text.{Text, codes, includes, join, text_eq}
use socket_scan_patterns.Upstream.{Host}

abbrev pub sample_rule : Text → PatternSeverity → PatternKind → Option Text → PatternRule
sample_rule id severity kind path_source = record {
  category = codes "generic";
  description = id;
  entropy = none;
  id = id;
  keywords = [];
  dialect = js;
  kind = kind;
  regex_flags = [];
  path_regex_source = path_source;
  provenance = record {
    license = spdx (codes "MIT");
    rule_id = id;
    source = codes "gitleaks@v1";
    source_file = codes "upstream/gitleaks/config/gitleaks.toml";
  };
  regex_source = some (codes "x");
  severity = severity;
  title = id;
}

abbrev pub rule_a : PatternRule
rule_a = sample_rule (codes "a") low regex none

abbrev pub rule_b : PatternRule
rule_b = sample_rule (codes "b") critical regex none

abbrev pub rule_c : PatternRule
rule_c = sample_rule (codes "c") high path (some (codes "\\.tf$"))

abbrev pub row_set : DerivedRowSet
row_set = record { rules = rule_a ∷ rule_b ∷ rule_c ∷ []; sources = codes "gitleaks@v1" ∷ [] }

-- an engine that refuses patterns with a lone `(?`
abbrev pub sample_engine : Text → Text → Bool
sample_engine source flags = not (includes (codes "(?!") source)

text_compare-flip : (a b : Text) → text_compare b a ≡ flip (text_compare a b)
unfolding text_compare
text_compare-flip [] [] = refl
text_compare-flip [] (b ∷ bs) = refl
text_compare-flip (a ∷ l) [] = refl
text_compare-flip (a ∷ l) (b ∷ bs) = ground (arith, text_compare-flip l bs)

-- comparing by code units is a collation
pub text_compare-IsCollation : IsCollation text_compare
text_compare-IsCollation = record { opposite = text_compare-flip; trans = text_le-IsOrder.trans }

of_two :
    {G : Type 0} {x a b : PatternRule}
    → IsProp G
    → Mem x (a ∷ b ∷ [])
    → (x ≡ a → G)
    → (x ≡ b → G)
    → G
of_two prop m f g =
    Or.elim prop (mem-cons.0 m) f (λ n. Or.elim prop (mem-cons.0 n) g (λ l. absurd (not-mem-nil l)))

pub a_b-HasDistinctIds : HasDistinctIds text_compare text_compare-IsCollation (rule_a ∷ rule_b ∷ [])
unfolding text_compare
a_b-HasDistinctIds x y mx my e =
    let prop = PatternRule-set x y in
    let clash = λ (r s : PatternRule) (p : x ≡ r) (q : y ≡ s).
      ap₂ (λ (v w : PatternRule). text_compare v.id w.id) p q in
    of_two prop mx (λ p. of_two prop my (λ q. p ∙ sym q) (λ q. cc (clash rule_a rule_b p q, e)))
      (λ p. of_two prop my (λ q. cc (clash rule_b rule_a p q, e)) (λ q. p ∙ sym q))

abbrev gitmodules : Text
gitmodules =
    codes
      "[submodule \"upstream/agentshield\"]\n\tpath = upstream/agentshield\n\tbranch = v1.4.0\n[submodule \"upstream/trivy\"]\n\tpath = upstream/trivy\n[submodule \"upstream/zizmor\"]\n\tbranch = v1.2 \n"

abbrev pub rule_module : Text
rule_module =
    codes
      "  {\n    id: \"dup\",\n    name: \"N\",\n    description: \"D  \\\"q\\\"\",\n    severity: \"low\",\n    category: \"c\",\n"

-- the names of as many module files
abbrev pub module_names : ℕ → List Text
module_names zero = []
module_names (suc n) = (codes "m" ++ (number_text n ++ codes ".ts")) ∷ module_names n

-- A tree in which every file but `.gitmodules` is one rule module, and there are 100 modules.
abbrev pub sample_host : Host
sample_host = record {
  path_join = join (codes "/");
  normalize_path = λ path. path;
  repo_root = codes "/repo";
  upstream_dir = codes "/repo/upstream";
  read_file = λ path.
      if text_eq path (codes "/repo/.gitmodules") then some gitmodules else some rule_module;
  exists_dir = λ path. true;
  read_dir = λ path. codes "README.md" ∷ module_names 100;
}
