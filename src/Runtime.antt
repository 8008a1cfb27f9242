-- ===== src/Runtime.antt =====
-- What the handlers run on: errors and panics as values, the cluster that they talk to, the writes
-- that they send and the events that they record.
pub mod Outcome
pub mod Client
pub mod Action
pub mod Calls
pub mod Quiet
pub mod Reconcile
pub mod WorkStore
pub mod Setup
pub mod Shared
pub mod Counted
pub mod CappStore
pub mod Patient
pub mod Requeue
pub mod Closed
pub mod Apart
pub mod Retrying
pub mod Deciding
