-- ===== src/Tests.antt =====
-- Runs on small inputs, and each theorem at an input that meets its hypotheses.
mod NpmScanRuns
mod CanonicalRuns
mod StagedRuns
mod PushRuns
mod SkillSpectorRuns
mod CodexRuns
mod ScanRuns
mod Samples
mod EmitRuns
mod DialectRuns
mod ComposeRuns
mod LoaderRuns
mod UpstreamRuns
mod AgentShieldRuns
mod ZizmorRuns
mod TrivyRuns
mod DivergenceRuns
mod UpstreamTreeRuns
mod GitleaksRuns
