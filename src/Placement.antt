-- ===== src/Placement.antt =====
-- The placement controller: it chooses the managed cluster of a Capp.
pub mod Adapters
pub mod Controller
