-- ===== src/Tools.antt =====
-- The scripts under tools/: two validators of the repository's contracts, and the SBOM export.
pub mod Files
pub mod Lifecycle
pub mod Schemas
pub mod Sbom
