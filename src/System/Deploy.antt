-- ===== src/System/Deploy.antt =====
-- A run of the placement controller and then one of the sync controller, on a quiet cluster.
pub mod Placed
pub mod Synced
pub mod Both
pub mod Awaited
