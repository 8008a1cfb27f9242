-- ===== src/System/Protected.antt =====
-- The finalizer of a Capp and its ManifestWork, over the runs of both controllers.
pub mod Updates
pub mod Live
pub mod Deleted
pub mod SyncRun
pub mod Placing
pub mod PlacementRun
pub mod Turns
pub mod Others
