-- ===== src/Tests/UpstreamRuns.antt =====
-- upstream-slice.mts
use socket_scan_patterns.Schema.{spdx}
use socket_scan_patterns.Failure.{ok, err, conformance_only, unknown_upstream, not_pinned}
use socket_scan_patterns.Prelude.{none, some, ◌≡◌, refl, ◌↔◌}
use socket_scan_patterns.Tests.Samples.{sample_host}
use socket_scan_patterns.Text.{codes, text_eq, starts_with, from_first, trim, is_space, join}
use socket_scan_patterns.TextSet.{has, get}
use socket_scan_patterns.Upstream.Resolve.{IsResolved, resolve_upstream_slice-ok_iff}
use socket_scan_patterns.Upstream.{
  UpstreamSlice, read_pinned_tag, resolve_upstream_slice, slice_of, pinned_slice, licensed_slice,
  submodule_block, up_to,
}

pinned_run :
    (read_pinned_tag (sample_host.read_file (codes "/repo/.gitmodules")) (codes "zizmor")
      ≡ some (codes "v1.2"))
    × (read_pinned_tag (sample_host.read_file (codes "/repo/.gitmodules")) (codes "trivy") ≡ none)
unfolding read_pinned_tag from_first starts_with trim is_space submodule_block up_to text_eq
pinned_run = (refl, refl)

resolve_run :
    (resolve_upstream_slice sample_host (codes "trufflehog")
      ≡ err (conformance_only (codes "trufflehog")))
    × (resolve_upstream_slice sample_host (codes "semgrep")
        ≡ err (unknown_upstream (codes "semgrep")))
    × (resolve_upstream_slice sample_host (codes "toString") ≡ err (not_pinned (codes "toString")))
    × (resolve_upstream_slice sample_host (codes "trivy") ≡ err (not_pinned (codes "trivy")))
    × (resolve_upstream_slice sample_host (codes "agentshield")
        ≡ ok (slice_of sample_host (codes "agentshield") (spdx (codes "MIT")) (codes "v1.4.0")))
unfolding resolve_upstream_slice licensed_slice pinned_slice read_pinned_tag from_first starts_with
    trim is_space submodule_block up_to text_eq has get join
resolve_run = (refl, refl, refl, refl, refl)

abbrev agentshield : UpstreamSlice
agentshield = slice_of sample_host (codes "agentshield") (spdx (codes "MIT")) (codes "v1.4.0")

resolve_upstream_slice-ok_iff_example :
    (resolve_upstream_slice sample_host (codes "agentshield") ≡ ok agentshield)
    ↔ IsResolved sample_host (codes "agentshield") agentshield
resolve_upstream_slice-ok_iff_example =
    resolve_upstream_slice-ok_iff sample_host (codes "agentshield") agentshield
