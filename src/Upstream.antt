-- ===== src/Upstream.antt =====
-- scripts/repo/gen/_shared/upstream-slice.mts: which upstreams may be derived from, and their pins.
pub mod Resolve
use socket_scan_patterns.Compose.{truthy}
use socket_scan_patterns.Failure.{
  Result, ok, err, conformance_only, unknown_upstream, not_pinned, not_materialized,
  slice_file_missing,
}
use socket_scan_patterns.Prelude.{
  ℕ, Bool, true, false, not, List, [], ◌∷◌, ◌++◌, Option, none, some, if◌then◌else◌,
}
use socket_scan_patterns.Regex.Notation.{◌⨟◌, word, spaces, plus, is_line_break}
use socket_scan_patterns.Regex.{Rx, unit, capture, line_start, line_end, exec_group}
use socket_scan_patterns.Schema.{License, spdx, inherited}
use socket_scan_patterns.Text.{Text, codes, from_first, starts_with, trim}
use socket_scan_patterns.TextSet.{has, get}

-- `UpstreamSlice`
pub record UpstreamSlice : Type 0 where
  pub license : License
  pub name : Text
  pub source : Text
  pub root_path : Text
  pub tag : Text

-- What the generators take from the platform: `path.join`, `normalizePath`, the paths module's
-- directories, and the files below them. A file or directory that does not exist is `none`.
pub record Host : Type 0 where
  pub path_join : List Text → Text
  pub normalize_path : Text → Text
  pub repo_root : Text
  pub upstream_dir : Text
  pub read_file : Text → Option Text
  pub exists_dir : Text → Bool
  pub read_dir : Text → List Text

-- `UPSTREAM_LICENSES`
abbrev pub upstream_licenses : List (Text × Text)
upstream_licenses =
    (codes "agentshield", codes "MIT")
    ∷ (codes "codex-security", codes "Apache-2.0")
    ∷ (codes "gitleaks", codes "MIT")
    ∷ (codes "skillspector", codes "Apache-2.0")
    ∷ (codes "trivy", codes "Apache-2.0")
    ∷ (codes "zizmor", codes "MIT")
    ∷ []

-- The members of `Object.prototype`, which `UPSTREAM_LICENSES[name]` finds too: functions and an
-- object, all of them truthy.
abbrev pub inherited_members : List Text
inherited_members =
    codes "__defineGetter__"
    ∷ codes "__defineSetter__"
    ∷ codes "__lookupGetter__"
    ∷ codes "__lookupSetter__"
    ∷ codes "__proto__"
    ∷ codes "constructor"
    ∷ codes "hasOwnProperty"
    ∷ codes "isPrototypeOf"
    ∷ codes "propertyIsEnumerable"
    ∷ codes "toLocaleString"
    ∷ codes "toString"
    ∷ codes "valueOf"
    ∷ []

-- `UPSTREAM_LICENSES[name]`, by the own member of the name
abbrev pub or_inherited : Text → Option Text → Option License
or_inherited name (some text) = some (spdx text)
or_inherited name none = if has name inherited_members then some (inherited name) else none

-- `DERIVATION_BLOCKED_UPSTREAMS`
abbrev pub derivation_blocked_upstreams : List Text
derivation_blocked_upstreams = codes "trufflehog" ∷ []

-- `s.slice(0, s.indexOf(p))`, or all of `s` where there is no `p`
unfoldable pub up_to : Text → Text → Text
up_to p [] = []
up_to p (c ∷ cs) = let rest = up_to p cs in if starts_with p (c ∷ cs) then [] else c ∷ rest

-- the block that starts at its own header: the search for the next header begins behind it
unfoldable pub submodule_block : Text → Text
submodule_block [] = []
submodule_block (c ∷ cs) = c ∷ up_to (codes "[submodule") cs

-- /^\s*branch\s*=\s*(.+)$/m
abbrev branch : Rx
branch =
    line_start
    ⨟ spaces
    ⨟ word (codes "branch")
    ⨟ spaces
    ⨟ word (codes "=")
    ⨟ spaces
    ⨟ capture 1 (plus (unit (λ c. not (is_line_break c))))
    ⨟ line_end

abbrev trimmed : Option Text → Option Text
trimmed none = none
trimmed (some t) = some (trim t)

-- `readPinnedTag`, on the text of `.gitmodules`
unfoldable pub read_pinned_tag : Option Text → Text → Option Text
unfolding exec_group
read_pinned_tag none name = none
read_pinned_tag (some text) name =
    elim (from_first (codes "[submodule \"upstream/" ++ (name ++ codes "\"]")) text) [
      | none ↦ none
      | some rest ↦ trimmed (exec_group 1 branch (submodule_block rest))
    ]

-- the slice of an upstream whose license and tag are known
abbrev pub slice_of : Host → Text → License → Text → UpstreamSlice
slice_of host name license tag = record {
  license = license;
  name = name;
  root_path = host.path_join (host.upstream_dir ∷ name ∷ []);
  source = name ++ codes "@" ++ tag;
  tag = tag;
}

-- the checks behind the license: the pin, then the tree
unfoldable pub pinned_slice : Host → Text → License → Option Text → Result UpstreamSlice
pinned_slice host name license none = err (not_pinned name)
pinned_slice host name license (some []) = err (not_pinned name)
pinned_slice host name license (some (t ∷ ts)) =
    if host.exists_dir (host.path_join (host.upstream_dir ∷ name ∷ []))
    then ok (slice_of host name license (t ∷ ts))
    else err (not_materialized name)

-- `!license`
abbrev pub is_no_license : Option License → Bool
is_no_license none = true
is_no_license (some (spdx [])) = true
is_no_license (some (spdx (c ∷ cs))) = false
is_no_license (some (inherited name)) = false

-- the checks, by what stands in the record of licenses
unfoldable pub licensed_slice : Host → Text → Option License → Result UpstreamSlice
licensed_slice host name none = err (unknown_upstream name)
licensed_slice host name (some license) =
    if is_no_license (some license)
    then err (unknown_upstream name)
    else pinned_slice host name license (
        read_pinned_tag
          (host.read_file (host.path_join (host.repo_root ∷ codes ".gitmodules" ∷ []))) name)

-- `resolveUpstreamSlice`
unfoldable pub resolve_upstream_slice : Host → Text → Result UpstreamSlice
resolve_upstream_slice host name =
    if has name derivation_blocked_upstreams
    then err (conformance_only name)
    else licensed_slice host name (or_inherited name (get name upstream_licenses))

abbrev file_or_missing : UpstreamSlice → Text → Option Text → Result Text
file_or_missing slice rel_path none = err (slice_file_missing slice.name rel_path)
file_or_missing slice rel_path (some text) = ok text

-- `readSliceFile`
unfoldable pub read_slice_file : Host → UpstreamSlice → Text → Result Text
read_slice_file host slice rel_path =
    file_or_missing slice rel_path
      (host.read_file (host.path_join (slice.root_path ∷ rel_path ∷ [])))

-- `sliceFilePath`
abbrev pub slice_file_path : Host → UpstreamSlice → Text → Text
slice_file_path host slice rel_path =
    host.normalize_path (host.path_join (codes "upstream" ∷ slice.name ∷ rel_path ∷ []))
