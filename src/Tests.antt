-- ===== src/Tests.antt =====
-- Runs on concrete inputs: a server in memory, and the theorems at values of it.
pub mod Server
pub mod Data
mod PlacementRuns
mod SyncRuns
mod SystemRuns
mod CopyRuns
mod AdmittedRuns
mod BoundRuns
mod DeployRuns
mod ManagerRuns
mod WebhookRuns
mod MutationRuns
mod CleanupRuns
mod SharedRuns
mod RetriedRuns
mod AwaitedRuns
mod CarriedRuns
