-- ===== src/Sync/Controller/Deletion.antt =====
-- What a run of the sync controller writes for a Capp that is being deleted, for every client.
use rcs_ocm_deployer.Common.{ℕ, ◌≡◌, refl, true, Option, none, some, List, [], ◌∷◌, arith}
use rcs_ocm_deployer.Api.Meta.{NamespacedName}
use rcs_ocm_deployer.Api.Workload.{Capp}
use rcs_ocm_deployer.Api.Work.{ManifestWork}
use rcs_ocm_deployer.Runtime.Outcome.{Outcome, ok, err, panic, done}
use rcs_ocm_deployer.Runtime.Client.{Client, Externals}
use rcs_ocm_deployer.Runtime.Reconcile.{ReconcileResult}
use rcs_ocm_deployer.Runtime.Quiet.{IsQuiet}
use rcs_ocm_deployer.Runtime.WorkStore.{IsWorkStore, accepted, answers_not_found}
use rcs_ocm_deployer.Runtime.Action.{Run, Write, fresh, pure, continue, update_capp, delete_work}
use rcs_ocm_deployer.Sync.Adapters.{
  generate_mw_name, contains_finalizer, finalizer_removed, handle_capp_deletion,
}
use rcs_ocm_deployer.Sync.Controller.{reconcile_by, reconcile_capp, requeue_time}

-- The key of the ManifestWork that is deleted: in the namespace of the status's site.
abbrev pub deletion_key : Capp → NamespacedName
deletion_key c = record { name = generate_mw_name c; namespace = c.status_site }

module _ (C : Client) (c : Capp) where
  -- Nothing; the ManifestWork that was read is deleted; or the finalizer is taken away, and then
  -- the server had said that there is no such ManifestWork.
  abbrev pub IsCleanup : C.Cluster → List Write → Type 0
  IsCleanup w [] = Unit
  IsCleanup w (delete_work mw ∷ []) =
      (contains_finalizer c ≡ true) × ((C.get_work (deletion_key c) w).0 ≡ done mw)
  IsCleanup w (update_capp a ∷ []) =
      (contains_finalizer c ≡ true)
      × (a ≡ finalizer_removed c)
      × (answers_not_found (C.get_work (deletion_key c) w).0 ≡ true)
  IsCleanup w _ = ⊥

  handle_capp_deletion-IsCleanup :
      (w : C.Cluster) → IsCleanup w (handle_capp_deletion C c (fresh w)).1.writes
  unfolding handle_capp_deletion
  handle_capp_deletion-IsCleanup w = ground arith

module _ (E : Externals) (C : Client) (c : Capp) where
  reconcile_by-IsCleanup :
      (w : C.Cluster) (t : ℕ) (o : Option ℕ)
      → o ≡ some t
      → IsCleanup C c w (reconcile_by E C o c (fresh w)).1.writes
  unfolding reconcile_by
  reconcile_by-IsCleanup w t none e = absurd (ground arith)
  reconcile_by-IsCleanup w t (some x) e = ground (arith, handle_capp_deletion-IsCleanup C c w)

  -- A run for a Capp that is being deleted writes at most once, and only if the Capp has the
  -- finalizer. It deletes the ManifestWork that it read; or it takes the finalizer away, and then
  -- the server had answered that there is no such ManifestWork.
  pub reconcile_capp-IsCleanup :
      (w : C.Cluster) (t : ℕ)
      → c.deletion_timestamp ≡ some t
      → IsCleanup C c w (reconcile_capp E C c (fresh w)).1.writes
  unfolding reconcile_capp
  reconcile_capp-IsCleanup w t e = reconcile_by-IsCleanup w t c.deletion_timestamp e

module _ (C : Client) (Q : IsQuiet C) (L : IsWorkStore C) (c : Capp) where
  -- the first run
  abbrev after_deletion : C.Cluster → C.Cluster
  after_deletion w = (handle_capp_deletion C c (fresh w)).1.cluster

  first_run :
      (w : C.Cluster) (mw : ManifestWork)
      → contains_finalizer c ≡ true
      → L.stored w (deletion_key c) ≡ some mw
      → mw.metadata.finalizers ≡ []
      → accepted (C.delete_work mw w).0 ≡ true
      → L.stored (after_deletion w) (deletion_key c) ≡ none
  unfolding handle_capp_deletion
  first_run w mw has found free deleted = ground (
    arith,
    Q.work (deletion_key c) w,
    L.get_found w (deletion_key c) mw,
    L.stored_key w (deletion_key c) mw,
    L.delete_stored w mw,
  )

  pub second_run :
      (w : C.Cluster)
      → contains_finalizer c ≡ true
      → L.stored w (deletion_key c) ≡ none
      → (handle_capp_deletion C c (fresh w)).1.writes ≡ update_capp (finalizer_removed c) ∷ []
  unfolding handle_capp_deletion
  second_run w has gone =
      ground (arith, Q.work (deletion_key c) w, L.get_missing w (deletion_key c))

  module _ (E : Externals) where
    -- the run behind the cleanup only sets the result
    run_behind :
        (r : Outcome (Unit {0}) × Run C.Cluster)
        → (continue {B = ReconcileResult} r (λ _. pure (record { requeue_after = requeue_time }))).1
          ≡ r.1
    run_behind (ok u, s) = refl
    run_behind (err e, s) = refl
    run_behind (panic, s) = refl

    run-reconcile_by :
        (w : C.Cluster) (t : ℕ) (o : Option ℕ)
        → o ≡ some t
        → (reconcile_by E C o c (fresh w)).1 ≡ (handle_capp_deletion C c (fresh w)).1
    unfolding reconcile_by
    run-reconcile_by w t none e = absurd (ground arith)
    run-reconcile_by w t (some x) e = run_behind _

    pub run-reconcile_capp :
        (w : C.Cluster) (t : ℕ)
        → c.deletion_timestamp ≡ some t
        → (reconcile_capp E C c (fresh w)).1 ≡ (handle_capp_deletion C c (fresh w)).1
    unfolding reconcile_capp
    run-reconcile_capp w t e = run-reconcile_by w t c.deletion_timestamp e

    -- On a quiet cluster, two runs are enough for a Capp that is being deleted: if the first can
    -- delete the stored ManifestWork and that has no finalizers, the second takes the finalizer away.
    deletion_completes :
        (w : C.Cluster) (t : ℕ) (mw : ManifestWork)
        → c.deletion_timestamp ≡ some t
        → contains_finalizer c ≡ true
        → L.stored w (deletion_key c) ≡ some mw
        → mw.metadata.finalizers ≡ []
        → accepted (C.delete_work mw w).0 ≡ true
        → let w' = (reconcile_capp E C c (fresh w)).1.cluster in
          (L.stored w' (deletion_key c) ≡ none)
          × ((reconcile_capp E C c (fresh w')).1.writes ≡ update_capp (finalizer_removed c) ∷ [])
    deletion_completes w t mw e has found free deleted =
        let gone = first_run w mw has found free deleted in
        let same = run-reconcile_capp w t e in
        let w' = (reconcile_capp E C c (fresh w)).1.cluster in
        let gone' : L.stored w' (deletion_key c) ≡ none = rw same gone in
        (gone', rw (run-reconcile_capp w' t e) (second_run w' has gone'))
