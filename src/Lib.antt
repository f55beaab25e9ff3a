-- ===== src/Lib.antt =====
-- Models of scan-patterns: the detector tables for Socket's baseline scanners, the generators that
-- derive them from pinned upstreams, and the loader that consumers call.
--
-- A generator reads one upstream slice, parses it into rows and writes data/sources/<name>.json.
-- Composition merges those row sets into the five tables under data/. The loader validates a table
-- and memoizes it.
--
-- Files, with the source of each (paths from the repository's root):
--   Prelude, Sorting, Text, TextSet, Regex: what the source uses of ECMAScript. Strings are lists of
--     UTF-16 code units; `toSorted` is a stable sort; `Set` and `Map` keep the order of insertion;
--     Regex runs a pattern by backtracking, and the patterns of the source are its values; Whole and
--     Forms are about what a pattern reads.
--   Failure: each `throw` as a value, with the parts of its message that vary.
--   Schema: src/types.mts.
--   Emit: scripts/repo/gen/_shared/emit-table.mts and the readers of scripts/repo/read-json.mts that
--     it calls. Emit/Order sortPatternRules, Emit/Unique assertRuleIdsUnique, Emit/Files the files.
--   Dialect: scripts/repo/gen/_shared/regex-dialect.mts, with its patterns written out as scanners.
--   Compose: scripts/repo/gen/compose-tables.mts.
--   Loader: src/load-table.mts and src/index.mts.
--   Upstream: scripts/repo/gen/_shared/upstream-slice.mts, where a license is looked up among the
--     members that every object inherits too, over a Host: what `path`, `fs` and the
--     path normalizer of the Socket library answer.
--   Gitleaks: scripts/repo/gen/import-gitleaks.mts; Gitleaks/Fields reads the fields of a
--     block, Lines and Blocks are about the kinds of lines and the blocks, Rows about the rows.
--   Json: the values that JSON.parse returns, and the narrowing readers of read-json.mts.
--   Divergence: scripts/repo/gen/_shared/divergence.mts.
--   UpstreamTree: scripts/repo/upstream-tree.mts.
--   AgentShield: scripts/repo/gen/import-agentshield.mts; Fields reads the headers, Ordinals and
--     Derived are about the ids.
--   Zizmor: scripts/repo/gen/port-zizmor-audits.mts; Docs reads the documentation, Rows and Triage are
--     about the rows and the checks against the status file, Prose about the summaries.
--   Codex: scripts/repo/gen/import-codex-security.mts; Headers is about the names that are parsed.
--   SkillSpector: scripts/repo/gen/import-skillspector.mts; Fields reads the Python source, Language is its language.mts, Modules about
--     the modules that are parsed.
--   Trivy: scripts/repo/gen/import-trivy-secrets.mts; Fields reads the Go source, Rows and Bodies are
--     about what is read.
--   NpmScan: the scan of the bytes that npm staged for a release. Ndjson is
--     scripts/fleet/registry/npm/scan/ndjson.mts (Lines is about the chunks, Protocol about the values
--     of the lines); Scan is run.mts beside it (Summary the policy on alerts, Polling and Deadline the
--     reads of a scan, Verdict what a passing scan gives to a receipt); Receipt is
--     scripts/fleet/npm/scan/receipt.mts (Source and Binding the logs of a publish run, Counts the
--     policy counts, Names the artifact names); Staged is staged.mts beside it (Run is runScanCi,
--     History its calls, Identity the configuration and the receipt, Build the environment and
--     Credentials the names that are kept out of it).
--   Canonical: .git-hooks/_shared/canonical/patch.mts (Patch, Sections) and replacements.mts (Hunk,
--     Replace, Located, Applied).
--   Push: .git-hooks/_shared/push/range.mts, and git of git.mts; Range is about the range.
--   PullRequest: .git-hooks/_shared/push/pr-commit-count.mts; Ready is about when it reports nothing.
--   Tests: runs, and each theorem at a concrete input.
--
-- Parameters. `locale_compare` is String.prototype.localeCompare by its sign; where a theorem needs
-- it to be a collation it says so (IsCollation), and the tests instantiate it by the order of code
-- units. `compiles` says whether `new RegExp(source, flags)` returns. `to_upper_case` is
-- String.prototype.toUpperCase. `require_json` is the module system's answer for a data file. A
-- Platform is JSON.parse, Buffer.byteLength and a TextDecoder; Utf8 the conversions of a Buffer; Reads
-- what the reads of a scan give, each by its number, and the clock behind it; Strings the case
-- mappings, Number of a text, and the names that modules outside the repository's files export.
-- ScanCiDeps answers each call of a scan run by the calls made before it, so that any behaviour of
-- git, npm and the Socket API is an instance. `spawn` is what a process leaves, a function of its
-- command: the repository stays as it is during one check. `to_number` is Number of a text, and
-- `parse_prs` what JSON.parse and Array.isArray make of the output of gh, of the type it is cast to.
--
-- Bounds. The run of leading flag groups is scanned with one unit of fuel for each code unit, and a
-- repetition of the pattern engine has one round for each code unit left and one more; a group, and a
-- round that counts, takes at least one. A search with the flag `g` has as many rounds as code
-- units and one more; its patterns never match the empty text. Polling a scan has fuel for its reads,
-- and 121 reads are enough where each waits for the poll interval. JSON numbers are natural numbers,
-- their negatives, or others; a count is safe up to 2 ^ 53 - 1, and comparisons are by exact value.
--
-- A generated file is the JSON value it holds, by its members: under data/sources by path, written
-- and read by the names of the members. The texts that JSON.stringify and JSON.parse exchange, their
-- bytes and their formatting are not modelled, nor are the creation of directories and the run log.
-- Numbers that a generator reads (entropy) are the digits of their literals. A table that the loader
-- reads has the types to which the loader narrows it.
--
-- Not modelled: processes, network and prompts (tokens, organizations, uploads, git and npm
-- themselves), the other git hooks and GitHub actions, the repository checks, and the bundle
-- scripts/repo/bootstrap/fleet.mjs, which is generated. Messages of errors and refusals are kept by
-- their parts, not as texts.
pub mod Prelude
pub mod Sorting
pub mod Text
pub mod Schema
pub mod Failure
pub mod TextSet
pub mod Emit
pub mod Dialect
pub mod Compose
pub mod Loader
pub mod PullRequest
pub mod Push
pub mod Regex
pub mod Upstream
pub mod Gitleaks
pub mod AgentShield
pub mod Zizmor
pub mod Trivy
pub mod UpstreamTree
pub mod Json
pub mod Divergence
pub mod Codex
pub mod SkillSpector
pub mod NpmScan
pub mod Canonical
mod Tests
