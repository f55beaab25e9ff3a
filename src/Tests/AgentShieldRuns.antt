-- ===== src/Tests/AgentShieldRuns.antt =====
-- import-agentshield.mts
use socket_scan_patterns.Schema.{spdx}
use socket_scan_patterns.AgentShield.Derived.{derive_agent_shield_rules-AreApart}
use socket_scan_patterns.AgentShield.Fields.{parse_agent_shield_rules, unescape_double_quoted}
use socket_scan_patterns.AgentShield.Ordinals.{AreApart}
use socket_scan_patterns.AgentShield.{
  AgentShieldRowSets, derive_agent_shield_rules, agent_shield_severity, push_metas, push_module,
  push_modules, check_agent_shield, without_ts, agentshield_min_expected_rules,
}
use socket_scan_patterns.Emit.{assert_rows_present}
use socket_scan_patterns.Failure.{Result, ok, err}
use socket_scan_patterns.Prelude.{◌≤◌, ◌+◌, [], ◌∷◌, length, ◌≡◌, refl}
use socket_scan_patterns.Sorting.{sort_by}
use socket_scan_patterns.Tests.Samples.{sample_host, rule_module}
use socket_scan_patterns.Text.Numbers.{number_text}
use socket_scan_patterns.Text.Order.{text_compare, sort_texts}
use socket_scan_patterns.Text.{codes, text_eq, ends_with, is_space, trim, join}
use socket_scan_patterns.TextSet.{has, get, put}
use socket_scan_patterns.Upstream.{UpstreamSlice, slice_of, read_slice_file}

header_run :
    parse_agent_shield_rules rule_module
    ≡ record {
      category = codes "c";
      description = codes "D \"q\"";
      id = codes "dup";
      name = codes "N";
      severity = codes "low";
    }
      ∷ []
unfolding parse_agent_shield_rules unescape_double_quoted is_space trim
header_run = refl

abbrev slice : UpstreamSlice
slice = slice_of sample_host (codes "agentshield") (spdx (codes "MIT")) (codes "v1.4.0")

abbrev nothing : AgentShieldRowSets
nothing = record {
  agent_configs = record { rules = []; sources = [] };
  skills = record { rules = []; sources = [] };
}

abbrev sets_of : Result AgentShieldRowSets → AgentShieldRowSets
sets_of (err e) = nothing
sets_of (ok sets) = sets

abbrev derived : AgentShieldRowSets
derived = sets_of (derive_agent_shield_rules sample_host slice)

derives : derive_agent_shield_rules sample_host slice ≡ ok derived
unfolding derive_agent_shield_rules push_modules push_module push_metas check_agent_shield
    agent_shield_severity without_ts assert_rows_present number_text text_compare sort_texts sort_by
    text_eq ends_with is_space trim join has get put read_slice_file parse_agent_shield_rules
    unescape_double_quoted
derives = refl

derive_agent_shield_rules-AreApart_example :
    AreApart derived.agent_configs.rules
    × AreApart derived.skills.rules
    × (agentshield_min_expected_rules
        ≤ length derived.agent_configs.rules + length derived.skills.rules)
derive_agent_shield_rules-AreApart_example =
    derive_agent_shield_rules-AreApart sample_host slice derived derives
