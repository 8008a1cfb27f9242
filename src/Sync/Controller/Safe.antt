-- ===== src/Sync/Controller/Safe.antt =====
-- `Reconcile` of internal/sync/controller/sync_controller.go: what a whole run writes.
use rcs_ocm_deployer.Common.{ℕ, ◌≡◌, refl, Option, none, some, List, [], arith}
use rcs_ocm_deployer.Api.Meta.{NamespacedName}
use rcs_ocm_deployer.Api.Workload.{Capp}
use rcs_ocm_deployer.Runtime.Outcome.{Reply, done, failed}
use rcs_ocm_deployer.Runtime.Client.{Client, Externals}
use rcs_ocm_deployer.Runtime.Action.{Write, fresh}
use rcs_ocm_deployer.Sync.Controller.{reconcile, reconcile_capp}
use rcs_ocm_deployer.Sync.Controller.Guarded.{IsGuarded, reconcile_capp-IsGuarded}
use rcs_ocm_deployer.Sync.Controller.Deletion.{IsCleanup, reconcile_capp-IsCleanup}

module _ (E : Externals) (C : Client) where
  -- by the deletion timestamp of the Capp
  abbrev pub IsSafeFor : Option ℕ → Capp → C.Cluster → List Write → Type 0
  IsSafeFor none c w writes = IsGuarded E C c w writes
  IsSafeFor (some t) c w writes = IsCleanup C c w writes

  -- by the read of the Capp
  abbrev pub IsSafe : Reply Capp → C.Cluster → List Write → Type 0
  IsSafe (failed e) w writes = writes ≡ []
  IsSafe (done c) w writes = IsSafeFor c.deletion_timestamp c w writes

  reconcile_capp-IsSafeFor :
      (c : Capp) (w : C.Cluster) (o : Option ℕ)
      → c.deletion_timestamp ≡ o
      → IsSafeFor o c w (reconcile_capp E C c (fresh w)).1.writes
  reconcile_capp-IsSafeFor c w none e = reconcile_capp-IsGuarded E C c w e
  reconcile_capp-IsSafeFor c w (some t) e = reconcile_capp-IsCleanup E C c w t e

  by_read :
      (req : NamespacedName) (w : C.Cluster) (r : Reply Capp)
      → (C.get_capp req w).0 ≡ r
      → IsSafe r (C.get_capp req w).1 (reconcile E C req (fresh w)).1.writes
  unfolding reconcile
  by_read req w (failed e) h = ground arith
  by_read req w (done c) h =
      rw h (reconcile_capp-IsSafeFor c (C.get_capp req w).1 c.deletion_timestamp refl)

  -- Whatever the client answers: a run for a Capp that cannot be read writes nothing. For a Capp
  -- without a deletion timestamp it writes at most the finalizer and then one ManifestWork, and
  -- that only if the Capp had the finalizer or the server accepted it. For one with a deletion
  -- timestamp it writes at most once: it deletes the ManifestWork that it read, or takes the
  -- finalizer away after the server had answered that there is none.
  pub reconcile-IsSafe :
      (req : NamespacedName) (w : C.Cluster)
      → let got = C.get_capp req w in IsSafe got.0 got.1 (reconcile E C req (fresh w)).1.writes
  reconcile-IsSafe req w = by_read req w _ refl
