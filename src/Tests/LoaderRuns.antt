-- ===== src/Tests/LoaderRuns.antt =====
-- load-table.mts and index.mts
use mathlib.Core.List.{Nodup, Nodup-nil, Nodup-cons, not-mem-nil}
use socket_scan_patterns.Emit.Unique.{ids}
use socket_scan_patterns.Emit.{is}
use socket_scan_patterns.Failure.{ok, err, schema_mismatch}
use socket_scan_patterns.Loader.Laws.{IsConsistent, get_pattern_table-load}
use socket_scan_patterns.Loader.{
  Loaded, object, is_pattern_table, load_pattern_table, check_table, TableCache, get_pattern_table,
}
use socket_scan_patterns.Prelude.{[], ◌∷◌, none, ◌≡◌, refl, if◌then◌else◌}
use socket_scan_patterns.Schema.{PatternTable, secrets, skills}
use socket_scan_patterns.Tests.Samples.{rule_a}
use socket_scan_patterns.Text.{Text, codes, text_eq}

abbrev secrets_table : PatternTable
secrets_table = record { sources = []; rules = rule_a ∷ []; scanner = secrets; schema_version = 1 }

-- a package whose secrets table is good, and whose other tables are older
abbrev package_data : Text → Loaded
package_data rel_path =
    if text_eq rel_path (codes "../data/secrets.json")
    then object (record {
      rules = is (rule_a ∷ []);
      sources = is [];
      scanner = is secrets;
      schema_version = is 1;
    })
    else object
        (record { rules = is []; sources = is []; scanner = is skills; schema_version = is 0 })

loaded_secrets : load_pattern_table package_data secrets ≡ ok secrets_table
unfolding load_pattern_table is_pattern_table text_eq check_table
loaded_secrets = refl

old_skills :
    load_pattern_table package_data skills ≡ err (schema_mismatch (codes "../data/skills.json") 0)
unfolding load_pattern_table is_pattern_table text_eq check_table
old_skills = refl

abbrev empty_cache : TableCache
empty_cache s = none

empty-IsConsistent : IsConsistent package_data empty_cache
empty-IsConsistent s table h = cc

get_pattern_table-load_example :
    ((get_pattern_table package_data secrets empty_cache).0
      ≡ load_pattern_table package_data secrets)
    × IsConsistent package_data (get_pattern_table package_data secrets empty_cache).1
get_pattern_table-load_example =
    get_pattern_table-load package_data secrets empty_cache empty-IsConsistent

one-Nodup : Nodup (ids (rule_a ∷ []))
one-Nodup = Nodup-cons.1 (not-mem-nil, Nodup-nil)
