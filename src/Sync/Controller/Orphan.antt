-- ===== src/Sync/Controller/Orphan.antt =====
-- The ManifestWork is made in the namespace that the annotation names, and looked for in the
-- namespace that the status names when the Capp is deleted.
use rcs_ocm_deployer.Common.{ℕ, ◌≡◌, ◌∙◌, true, false, some, none, [], ◌∷◌, arith}
use rcs_ocm_deployer.Api.Meta.{NamespacedName}
use rcs_ocm_deployer.Api.Workload.{Capp}
use rcs_ocm_deployer.Api.Work.{ManifestWork}
use rcs_ocm_deployer.Runtime.Client.{Client, Externals}
use rcs_ocm_deployer.Runtime.Quiet.{IsQuiet}
use rcs_ocm_deployer.Runtime.WorkStore.{IsWorkStore}
use rcs_ocm_deployer.Runtime.Action.{fresh, update_capp}
use rcs_ocm_deployer.Sync.Adapters.{
  generate_mw_name, contains_finalizer, finalizer_removed, handle_capp_deletion,
}
use rcs_ocm_deployer.Sync.Adapters.Finalizers.{finalizer_removed_lem}
use rcs_ocm_deployer.Sync.Controller.{managed_cluster_name, reconcile_capp}
use rcs_ocm_deployer.Sync.Controller.Deletion.{deletion_key, second_run, run-reconcile_capp}

-- The key of the ManifestWork that `SyncManifestWork` makes and updates.
abbrev pub creation_key : Capp → NamespacedName
creation_key c = record { name = generate_mw_name c; namespace = managed_cluster_name c }

module _ (C : Client) (Q : IsQuiet C) (L : IsWorkStore C) (c : Capp) where
  left :
      (w : C.Cluster) (k : NamespacedName)
      → ((a : Capp) (w : C.Cluster) → L.stored (C.update_capp a w).1 k ≡ L.stored w k)
      → contains_finalizer c ≡ true
      → L.stored w (deletion_key c) ≡ none
      → L.stored (handle_capp_deletion C c (fresh w)).1.cluster k ≡ L.stored w k
  unfolding handle_capp_deletion
  left w k apart has gone = ground (
    arith,
    Q.work (deletion_key c) w,
    L.get_missing w (deletion_key c),
    apart (finalizer_removed c) w,
  )

  -- Updates of Capps leave ManifestWorks alone, and the cluster is quiet. A Capp with the finalizer
  -- is being deleted, and no ManifestWork is stored in the namespace of the site of its status; but
  -- one is stored where its annotation says. Then the run only takes the finalizer away: the
  -- ManifestWork that was made for the Capp stays stored.
  pub reconcile_capp-leaves_work :
      (E : Externals) (w : C.Cluster) (t : ℕ) (mw : ManifestWork)
      → ((a : Capp) (w : C.Cluster) (k : NamespacedName)
          → L.stored (C.update_capp a w).1 k ≡ L.stored w k)
      → c.deletion_timestamp ≡ some t
      → contains_finalizer c ≡ true
      → L.stored w (deletion_key c) ≡ none
      → L.stored w (creation_key c) ≡ some mw
      → let r = reconcile_capp E C c (fresh w) in
        (r.1.writes ≡ update_capp (finalizer_removed c) ∷ [])
        × (contains_finalizer (finalizer_removed c) ≡ false)
        × (L.stored r.1.cluster (creation_key c) ≡ some mw)
  reconcile_capp-leaves_work E w t mw apart e has gone made =
      let same = run-reconcile_capp C Q L c E w t e in
      (
        rw same (second_run C Q L c w has gone),
        (finalizer_removed_lem c).0,
        rw same (left w (creation_key c) (λ a v. apart a v (creation_key c)) has gone ∙ made),
      )
