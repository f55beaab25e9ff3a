-- ===== src/Tests/GitleaksRuns.antt =====
-- import-gitleaks.mts, and the pattern engine
use socket_scan_patterns.Schema.{spdx}
use socket_scan_patterns.Gitleaks.Blocks.{Outside, split_gitleaks_rule_blocks-Outside}
use socket_scan_patterns.Gitleaks.Rows.{IsGitleaksRow, gitleaks_rows-All}
use socket_scan_patterns.Gitleaks.Fields.{
  read_gitleaks_scalar, read_gitleaks_keywords, read_gitleaks_number,
}
use socket_scan_patterns.Gitleaks.{
  split_gitleaks_rule_blocks, gitleaks_rows, gitleaks_category_from_id,
}
use socket_scan_patterns.Prelude.{map, List, [], ◌∷◌, none, some, ◌≡◌, refl, All}
use socket_scan_patterns.Tests.Samples.{sample_engine}
use socket_scan_patterns.Text.Lines.{split_lines}
use socket_scan_patterns.Text.Order.{text_compare, sort_texts}
use socket_scan_patterns.Text.{Text, codes, starts_with, trim_start, join, is_space}
use socket_scan_patterns.Sorting.{sort_by}
use socket_scan_patterns.Upstream.{UpstreamSlice}

abbrev toml : Text
toml =
    codes
      "title = \"x\"\n[[rules]]\nid = \"a-b\"\nregex = '''(?i)k\\d'''\nentropy = 3.8\nkeywords = [\"z\",\"y\"]\n[rules.allowlist]\nregex = '''no'''\n[extend]\nid = \"no\"\n"

abbrev block : Text
block =
    codes
      "id = \"a-b\"\nregex = '''(?i)k\\d'''\nentropy = 3.8\nkeywords = [\"z\",\"y\"]\n[rules.allowlist]\nregex = '''no'''"

blocks_run : split_gitleaks_rule_blocks toml ≡ block ∷ []
unfolding split_gitleaks_rule_blocks split_lines starts_with trim_start join
blocks_run = refl

fields_run :
    (read_gitleaks_scalar block (codes "id") ≡ some (codes "a-b"))
    × (read_gitleaks_scalar block (codes "regex") ≡ some (codes "(?i)k\\d"))
    × (read_gitleaks_scalar block (codes "path") ≡ none)
    × (read_gitleaks_keywords block ≡ codes "y" ∷ codes "z" ∷ [])
    × (read_gitleaks_number block (codes "entropy")
        ≡ some (record { whole = codes "3"; fraction = codes "8" }))
unfolding read_gitleaks_scalar read_gitleaks_keywords read_gitleaks_number sort_texts sort_by
    text_compare is_space
fields_run = (refl, refl, refl, refl, refl)

category_run : gitleaks_category_from_id (codes "adobe-client-id") ≡ codes "adobe"
unfolding gitleaks_category_from_id
category_run = refl

abbrev slice : UpstreamSlice
slice = record {
  license = spdx (codes "MIT");
  name = codes "gitleaks";
  source = codes "gitleaks@v8.30.1";
  root_path = codes "/repo/upstream/gitleaks";
  tag = codes "v8.30.1";
}

abbrev file : Text
file = codes "upstream/gitleaks/config/gitleaks.toml"

split_gitleaks_rule_blocks-Outside_example :
    (bodies : List (List Text)) × Outside (split_lines toml) bodies
    × (split_gitleaks_rule_blocks toml ≡ map (join (codes "\n")) bodies)
split_gitleaks_rule_blocks-Outside_example = split_gitleaks_rule_blocks-Outside toml

gitleaks_rows-All_example :
    All
      (IsGitleaksRow sample_engine slice file)
      (gitleaks_rows sample_engine slice file (block ∷ []))
gitleaks_rows-All_example = gitleaks_rows-All sample_engine slice file (block ∷ [])
