-- ===== src/Webhooks.antt =====
-- The admission webhooks of the Capp.
pub mod Admission
pub mod Common
pub mod Domain
pub mod Mutator
pub mod Validator
pub mod ReadOnly
pub mod Verdict
