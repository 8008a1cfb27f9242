-- ===== src/System.antt =====
-- How the two controllers work together.
pub mod Handover
pub mod Admitted
pub mod Protected
pub mod Deploy
