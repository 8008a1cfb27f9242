-- ===== src/System/Protected/SyncRun.antt =====
-- A run of the sync controller.
use rcs_ocm_deployer.Common.{ℕ, ◌≡◌, inl, inr, refl, true, Bool-cases, Option, none, some}
use rcs_ocm_deployer.Api.Meta.{NamespacedName}
use rcs_ocm_deployer.Api.Workload.{Capp}
use rcs_ocm_deployer.Runtime.Outcome.{is_not_found, Reply, done, failed}
use rcs_ocm_deployer.Runtime.Client.{Client, Externals}
use rcs_ocm_deployer.Runtime.Action.{Run, fresh}
use rcs_ocm_deployer.Runtime.Shared.{IsShared}
use rcs_ocm_deployer.Sync.Adapters.{contains_finalizer, handle_capp_deletion}
use rcs_ocm_deployer.Sync.Controller.{sync_manifest_work, reconcile_by, reconcile_capp, reconcile}
use rcs_ocm_deployer.Sync.Controller.Deletion.{deletion_key}
use rcs_ocm_deployer.System.Protected.Live.{
  sync_manifest_work-IsFinalized, ensure_finalizer-IsProtected,
}
use rcs_ocm_deployer.System.Protected.Deleted.{handle_capp_deletion-IsProtected}
use rcs_ocm_deployer.System.Protected.Updates.{IsProtected, IsProtected-IsStable, ends_behind}

module _ (E : Externals) (C : Client) (key work : NamespacedName)
    (G : IsShared C key work contains_finalizer) where
  reconcile_by-IsProtected :
      (c : Capp) (s : Run C.Cluster) (o : Option ℕ)
      → ((t : ℕ) → o ≡ some t → deletion_key c ≡ work)
      → IsProtected C key work G s.cluster
      → G.Seen c s.cluster
      → (contains_finalizer c ≡ true → G.finalized s.cluster ≡ true)
      → IsProtected C key work G (reconcile_by E C o c s).1.cluster
  unfolding reconcile_by
  reconcile_by-IsProtected c s none same p seen stored =
      ensure_finalizer-IsProtected E C key work G c s p seen stored (λ u. sync_manifest_work E C c)
        (sync_manifest_work-IsFinalized E C key work G c)
  reconcile_by-IsProtected c s (some t) same p seen stored =
      ends_behind C key work G (IsProtected C key work G) (handle_capp_deletion C c s) _
        (handle_capp_deletion-IsProtected C key work G c s (same t refl) p)

  reconcile_capp-IsProtected :
      (c : Capp) (s : Run C.Cluster)
      → ((t : ℕ) → c.deletion_timestamp ≡ some t → deletion_key c ≡ work)
      → IsProtected C key work G s.cluster
      → G.Seen c s.cluster
      → (contains_finalizer c ≡ true → G.finalized s.cluster ≡ true)
      → IsProtected C key work G (reconcile_capp E C c s).1.cluster
  unfolding reconcile_capp
  reconcile_capp-IsProtected c s = reconcile_by-IsProtected c s c.deletion_timestamp

  -- A Capp that is read with a deletion timestamp names the ManifestWork by its status.
  abbrev pub IsSited : C.Cluster → Type 0
  IsSited w =
      (c : Capp) (t : ℕ)
      → (C.get_capp key w).0 ≡ done c
      → c.deletion_timestamp ≡ some t
      → deletion_key c ≡ work

  capp_behind :
      (s : Run C.Cluster) (r : Reply Capp)
      → (C.get_capp key s.cluster).0 ≡ r
      → IsSited s.cluster
      → IsProtected C key work G s.cluster
      → IsProtected C key work G (reconcile E C key s).1.cluster
  unfolding reconcile
  capp_behind s (failed e) h same p =
      let read = IsProtected-IsStable C key work G s.cluster _ (G.get_capp key s.cluster) p in
      elim (Bool-cases (is_not_found e)) [ inl n ↦ rw (h, n) read | inr n ↦ rw (h, n) read ]
  capp_behind s (done c) h same p =
      let w = (C.get_capp key s.cluster).1 in
      let read = IsProtected-IsStable C key work G s.cluster w (G.get_capp key s.cluster) p in
      rw h (
        reconcile_capp-IsProtected c (record s { cluster = w }) (λ t. same c t h) read
          (G.seen s.cluster c h) (G.seen_finalized s.cluster c h))

  -- A run of the sync controller keeps the finalizer on while the ManifestWork is stored.
  pub reconcile-IsProtected :
      (w : C.Cluster)
      → IsSited w
      → IsProtected C key work G w
      → IsProtected C key work G (reconcile E C key (fresh w)).1.cluster
  reconcile-IsProtected w same p = capp_behind (fresh w) _ refl same p
