-- ===== src/AgentShield/Derived.antt =====
-- The rows of the two AgentShield tables.
use socket_scan_patterns.AgentShield.Ordinals.{
  AreApart, IsOrdinal, IsNumbered-mono, ordinal_grows, push_metas-IsOrdinal,
}
use socket_scan_patterns.Emit.{assert_rows_present}
use socket_scan_patterns.AgentShield.Fields.{AgentShieldRuleMeta}
use socket_scan_patterns.AgentShield.{
  Ordinals, Rows, ordinal_of, agent_shield_severity, push_metas, push_module, push_modules,
  check_agent_shield, derive_agent_shield_rules, AgentShieldRowSets, no_rows,
  agentshield_skill_modules, agentshield_non_rule_modules, agentshield_min_expected_rules,
  without_ts,
}
use socket_scan_patterns.Failure.{ok, bind-eq-ok, ok_injective}
use socket_scan_patterns.Prelude.{
  ◌+◌, ◌≤◌, ltb, List, [], ◌∷◌, ◌≡◌, refl, sym, subst, arith, length, Bool-cases, inl, inr,
}
use socket_scan_patterns.Schema.{PatternRule}
use socket_scan_patterns.Text.{Text}
use socket_scan_patterns.TextSet.{has}
use socket_scan_patterns.Upstream.{Host, UpstreamSlice, read_slice_file}

-- Both arrays of the loop over the modules, under the ordinals that they share.
IsNumberedRows : Rows → Type 0
IsNumberedRows rows =
    IsOrdinal (rows.ordinals, rows.agent_config_rules) × IsOrdinal (rows.ordinals, rows.skill_rules)

push_metas-grows :
    (slice : UpstreamSlice) (source_file : Text) (metas : List AgentShieldRuleMeta)
    (state after : Ordinals × List PatternRule)
    → push_metas slice source_file metas state ≡ ok after
    → (id : Text) → ordinal_of id state.0 ≤ ordinal_of id after.0
unfolding push_metas
push_metas-grows slice source_file [] state after h id =
    subst (λ (s : Ordinals × List PatternRule). ordinal_of id state.0 ≤ ordinal_of id s.0)
      (ok_injective h) (omega arith)
push_metas-grows slice source_file (meta ∷ metas) (ordinals, rows) after h id =
    let (severity, known, rest) = bind-eq-ok (agent_shield_severity meta.severity) _ h in
    omega (
      arith,
      ordinal_grows meta.id ordinals id,
      push_metas-grows slice source_file metas _ after rest id,
    )

IsOrdinal-mono :
    (old new : Ordinals) (rows : List PatternRule)
    → ((id : Text) → ordinal_of id old ≤ ordinal_of id new)
    → IsOrdinal (old, rows)
    → IsOrdinal (new, rows)
unfolding IsOrdinal
IsOrdinal-mono old new rows grows (numbered, apart) =
    (IsNumbered-mono old new grows rows numbered, apart)

module _ (slice : UpstreamSlice) (source_file : Text) (metas : List AgentShieldRuleMeta) where
  push_module-IsNumberedRows :
      (name : Text) (rows after : Rows)
      → IsNumberedRows rows
      → push_module slice name source_file metas rows ≡ ok after
      → IsNumberedRows after
  unfolding IsNumberedRows push_module
  push_module-IsNumberedRows name rows after (configs, skills) h =
      elim (Bool-cases (has name agentshield_skill_modules)) [
        | inl skill ↦
            let ((ordinals, target), pushed, done) =
              bind-eq-ok (push_metas slice source_file metas _) _ (rw skill at h) in
            let grows = push_metas-grows slice source_file metas _ _ pushed in
            subst IsNumberedRows (ok_injective done) (
              IsOrdinal-mono rows.ordinals ordinals rows.agent_config_rules grows configs,
              push_metas-IsOrdinal slice source_file metas _ _ skills pushed,
            )
        | inr config ↦
            let ((ordinals, target), pushed, done) =
              bind-eq-ok (push_metas slice source_file metas _) _ (rw config at h) in
            let grows = push_metas-grows slice source_file metas _ _ pushed in
            subst IsNumberedRows (ok_injective done) (
              push_metas-IsOrdinal slice source_file metas _ _ configs pushed,
              IsOrdinal-mono rows.ordinals ordinals rows.skill_rules grows skills,
            )
      ]

module _ (host : Host) (slice : UpstreamSlice) where
  push_modules-IsNumberedRows :
      (file_names : List Text) (rows after : Rows)
      → IsNumberedRows rows
      → push_modules host slice file_names rows ≡ ok after
      → IsNumberedRows after
  unfolding push_modules
  push_modules-IsNumberedRows [] rows after i h = subst IsNumberedRows (ok_injective h) i
  push_modules-IsNumberedRows (file_name ∷ file_names) rows after i h =
      elim (Bool-cases (has (without_ts file_name) agentshield_non_rule_modules)) [
        | inl skipped ↦ push_modules-IsNumberedRows file_names rows after i (rw skipped at h)
        | inr read ↦
            let (source, was_read, pushing) =
              bind-eq-ok (read_slice_file host slice _) _ (rw read at h) in
            let (more, pushed, rest) = bind-eq-ok (push_module slice _ _ _ rows) _ pushing in
            push_modules-IsNumberedRows file_names more after
              (push_module-IsNumberedRows slice _ _ _ rows more i pushed) rest
      ]

  check_agent_shield-ok :
      (rows : Rows) (sets : AgentShieldRowSets)
      → check_agent_shield host slice rows ≡ ok sets
      → (sets.agent_configs.rules ≡ rows.agent_config_rules)
        × (sets.skills.rules ≡ rows.skill_rules)
        × (agentshield_min_expected_rules
            ≤ length sets.agent_configs.rules + length sets.skills.rules)
  unfolding check_agent_shield
  check_agent_shield-ok rows sets h =
      let total = length rows.agent_config_rules + length rows.skill_rules in
      let (present, asserted, rest) =
        bind-eq-ok (assert_rows_present rows.agent_config_rules _ _) _ h in
      elim (Bool-cases (ltb total agentshield_min_expected_rules)) [
        | inl few ↦ cc (rw few at rest)
        | inr enough ↦
            let made = ok_injective (rw enough at rest) in
            let least : agentshield_min_expected_rules ≤ total = ground arith in
            subst
              (λ (s : AgentShieldRowSets).
                (s.agent_configs.rules ≡ rows.agent_config_rules)
                × (s.skills.rules ≡ rows.skill_rules)
                × (agentshield_min_expected_rules
                    ≤ length s.agent_configs.rules + length s.skills.rules))
              made (refl, refl, least)
      ]

  -- If the generator returns, its two tables hold at least 100 rows together, and in each of them
  -- two rows of one upstream id have different ids.
  pub derive_agent_shield_rules-AreApart :
      (sets : AgentShieldRowSets)
      → derive_agent_shield_rules host slice ≡ ok sets
      → AreApart sets.agent_configs.rules
        × AreApart sets.skills.rules
        × (agentshield_min_expected_rules
            ≤ length sets.agent_configs.rules + length sets.skills.rules)
  unfolding derive_agent_shield_rules IsNumberedRows IsOrdinal
  derive_agent_shield_rules-AreApart sets h =
      let (rows, pushed, checked) = bind-eq-ok (push_modules host slice _ no_rows) _ h in
      let (configs_are, skills_are, least) = check_agent_shield-ok rows sets checked in
      let (configs, skills) =
        push_modules-IsNumberedRows _ no_rows rows ((tt, tt), (tt, tt)) pushed in
      (subst AreApart (sym configs_are) configs.1, subst AreApart (sym skills_are) skills.1, least)
