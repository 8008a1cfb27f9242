-- ===== src/Sync.antt =====
-- The sync controller: it keeps the ManifestWork of a placed Capp.
pub mod Builders
pub mod Directors
pub mod Adapters
pub mod Controller
