-- ===== src/Runtime/Reconcile.antt =====
-- `ctrl.Result` of controller-runtime.
use rcs_ocm_deployer.Common.{ℕ}

-- `RequeueAfter` in seconds; 0 for the empty result
pub record ReconcileResult : Type 0 where
  pub requeue_after : ℕ

-- `ctrl.Result{}`
abbrev pub no_result : ReconcileResult
no_result = record { requeue_after = 0 }
