-- ===== src/NpmScan.antt =====
-- scripts/fleet/npm/scan and scripts/fleet/registry/npm/scan: scanning the staged bytes of a release.
pub mod Ndjson
pub mod Receipt
pub mod Staged
pub mod Scan
