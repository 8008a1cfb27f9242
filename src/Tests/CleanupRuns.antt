-- ===== src/Tests/CleanupRuns.antt =====
-- The runs for a Capp that is being deleted on a server that fails at first.
use rcs_ocm_deployer.Common.{ℕ, zero, suc, ◌+◌, ◌≡◌, refl, Option, none, some, [], ◌∷◌, arith}
use rcs_ocm_deployer.Api.Meta.{NamespacedName}
use rcs_ocm_deployer.Api.Workload.{Capp}
use rcs_ocm_deployer.Api.Work.{ManifestWork}
use rcs_ocm_deployer.Runtime.Outcome.{
  Reply, done, failed, status, not_found, other_reason, is_not_found,
}
use rcs_ocm_deployer.Runtime.Client.{Client}
use rcs_ocm_deployer.Runtime.Patient.{IsPatient}
use rcs_ocm_deployer.Runtime.Requeue.{run_until_done}
use rcs_ocm_deployer.Sync.Adapters.{contains_finalizer, without_finalizer}
use rcs_ocm_deployer.Sync.Controller.{reconcile}
use rcs_ocm_deployer.Sync.Controller.Deletion.{deletion_key}
use rcs_ocm_deployer.Sync.Controller.Cleanup.{IsDeleting, IsClean}
use rcs_ocm_deployer.Sync.Controller.Ends.{run_until_done-reconcile}
use rcs_ocm_deployer.Tests.Data.{externals, deleted_web, work, request}

record Failing : Type 0 where
  pub capp : Option Capp
  pub work : Option ManifestWork
  -- how many calls are still answered with an error
  pub failures : ℕ
  -- how many deletions the ManifestWork still outlives
  pub delays : ℕ

abbrev refused : {A : Type 0} → Reply A
refused = failed (status other_reason "try later")

abbrev missing : {A : Type 0} → Reply A
missing = failed (status not_found "not found")

abbrev reply : {A : Type 0} → Option A → Reply A
reply none = missing
reply (some a) = done a

-- a call that fails while there are failures left, and then does `act`
abbrev call : {A : Type 0} → (Failing → Reply A × Failing) → Failing → Reply A × Failing
call act w = elim w.failures [ suc n ↦ (refused, record w { failures = n }) | zero ↦ act w ]

abbrev left_capp : Capp → Option Capp
left_capp a = elim a.deletion_timestamp [
  | none ↦ some a
  | some t ↦ elim a.finalizers [ [] ↦ none | f ∷ fs ↦ some a ]
]

abbrev deletion : Failing → Failing
deletion w = elim w.delays [ suc n ↦ record w { delays = n } | zero ↦ record w { work = none } ]

abbrev failing : Client
failing = record {
  Cluster = Failing;
  get_config = λ k w. (missing, w);
  get_capp = λ k w. call (λ v. (reply v.capp, v)) w;
  get_placement = λ k w. (missing, w);
  get_work = λ k w. call (λ v. (reply v.work, v)) w;
  get_config_map = λ k w. (missing, w);
  get_secret = λ k w. (missing, w);
  list_decisions = λ o w. (missing, w);
  list_role_bindings = λ ns w. (missing, w);
  list_managed_clusters = λ w. (missing, w);
  update_capp = λ a w. call (λ v. (done a, record v { capp = left_capp a })) w;
  update_capp_status = λ c w. (missing, w);
  create_work = λ mw w. (missing, w);
  update_work = λ mw w. (missing, w);
  delete_work = λ mw w. call (λ v. (done tt, deletion v)) w;
}

patient : (k j : NamespacedName) → IsPatient failing k j
unfolding is_not_found
patient k j = record {
  capp = λ w. w.capp;
  work = λ w. w.work;
  patience = λ w. w.failures + w.delays;
  get_capp = λ w. ground arith;
  get_work = λ w. ground arith;
  update_accepted = λ w c a t found same deleting free yes. ground arith;
  update_refused = λ w a no_update. ground arith;
  delete_work = λ w mw there. ground arith;
}

-- three failures, and a deletion that the ManifestWork outlives
abbrev dying : Failing
dying = record { capp = some deleted_web; work = some work; failures = 3; delays = 1 }

dying-IsDeleting :
    IsDeleting failing request
      (deletion_key deleted_web)
      (patient request (deletion_key deleted_web))
      dying
unfolding contains_finalizer without_finalizer patient
dying-IsDeleting = (deleted_web, refl, ((7, refl), refl, refl, refl))

run_until_done-reconcile_example :
    (v : Failing) × (run_until_done (reconcile externals failing request) 7 dying ≡ some v)
    × IsClean failing request
        (deletion_key deleted_web)
        (patient request (deletion_key deleted_web))
        v
unfolding patient
run_until_done-reconcile_example =
    run_until_done-reconcile externals failing request (deletion_key deleted_web)
      (patient request (deletion_key deleted_web)) 7 dying dying-IsDeleting (omega arith)
