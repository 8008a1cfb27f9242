-- ===== src/System/Protected/Deleted.antt =====
-- A run of the sync controller for a Capp that is being deleted: the ManifestWork before the
-- finalizer.
use rcs_ocm_deployer.Common.{
  ◌<>◌, ◌≡◌, inl, inr, refl, true, false, Bool-cases, arith, if◌then◌else◌,
}
use rcs_ocm_deployer.Api.Meta.{NamespacedName}
use rcs_ocm_deployer.Api.Workload.{Capp}
use rcs_ocm_deployer.Api.Work.{ManifestWork}
use rcs_ocm_deployer.Runtime.Outcome.{errorf, error_text, is_not_found, Reply, done, failed}
use rcs_ocm_deployer.Runtime.Client.{Client}
use rcs_ocm_deployer.Runtime.Action.{
  Run, Action, pure, raise, continue, attempt, delete_work, ◌>>=◌,
}
use rcs_ocm_deployer.Runtime.Calls.{send}
use rcs_ocm_deployer.Runtime.Shared.{IsShared}
use rcs_ocm_deployer.Runtime.WorkStore.{answers_not_found}
use rcs_ocm_deployer.Sync.Adapters.{
  contains_finalizer, finalizer_removed, finalize_capp, remove_finalizer, handle_capp_deletion,
}
use rcs_ocm_deployer.Sync.Controller.Deletion.{deletion_key}
use rcs_ocm_deployer.System.Protected.Updates.{IsProtected, IsProtected-IsStable}

module _ (C : Client) (key work : NamespacedName) (G : IsShared C key work contains_finalizer) where
  removed_gone :
      (c : Capp) (s : Run C.Cluster)
      → G.present s.cluster ≡ false
      → IsProtected C key work G (C.update_capp (finalizer_removed c) s.cluster).1
  removed_gone c s gone q =
      let stays = G.update_present s.cluster (finalizer_removed c) q in ground arith

  removed :
      (c : Capp) (s : Run C.Cluster) (r : Reply Capp)
      → (C.update_capp (finalizer_removed c) s.cluster).0 ≡ r
      → IsProtected C key work G (C.update_capp (finalizer_removed c) s.cluster).1
      → IsProtected C key work G (remove_finalizer C c s).1.cluster
  unfolding remove_finalizer
  removed c s (failed e) h p = rw h p
  removed c s (done a) h p = rw h p

  -- the ManifestWork is gone, or was never there
  remove_finalizer-IsProtected :
      (c : Capp) (s : Run C.Cluster)
      → G.present s.cluster ≡ false
      → IsProtected C key work G (remove_finalizer C c s).1.cluster
  remove_finalizer-IsProtected c s gone = removed c s _ refl (removed_gone c s gone)

  deletion_ends :
      (c : Capp) (mw : ManifestWork) (s : Run C.Cluster) (r : Reply (Unit {0}))
      → (C.delete_work mw s.cluster).0 ≡ r
      → IsProtected C key work G (C.delete_work mw s.cluster).1
      → IsProtected C key work G
          (continue
            (attempt
              (do
                deleted ← send (delete_work mw) (C.delete_work mw)
                elim deleted as (λ r. Action C.Cluster (Unit {0})) [
                  | failed e ↦ raise (errorf ("unable to delete ManifestWork: " <> error_text e))
                  | done _ ↦ pure tt
                ])
              s)
            (λ finalized. elim finalized as (λ t. Action C.Cluster (Unit {0})) [
              | failed e ↦ if is_not_found e then remove_finalizer C c else raise e
              | done _ ↦ pure tt
            ])).1.cluster
  unfolding is_not_found
  deletion_ends c mw s (failed e) h p = rw h p
  deletion_ends c mw s (done u) h p = rw h p

  -- what the deletion does with the ManifestWork that it read
  finalize_ends :
      (c : Capp) (s : Run C.Cluster) (k : NamespacedName) (r : Reply ManifestWork)
      → (C.get_work k s.cluster).0 ≡ r
      → (answers_not_found (C.get_work k s.cluster).0 ≡ true
          → G.present (C.get_work k s.cluster).1 ≡ false)
      → IsProtected C key work G s.cluster
      → IsProtected C key work G
          (continue (attempt (finalize_capp C k.name k.namespace) s) (λ finalized.
            elim finalized as (λ t. Action C.Cluster (Unit {0})) [
              | failed e ↦ if is_not_found e then remove_finalizer C c else raise e
              | done _ ↦ pure tt
            ])).1.cluster
  unfolding finalize_capp
  finalize_ends c s k (failed e) h gone p =
      let w = (C.get_work k s.cluster).1 in
      let read = IsProtected-IsStable C key work G s.cluster w (G.get_work k s.cluster) p in
      elim (Bool-cases (is_not_found e)) [
        | inl n ↦
            rw (h, n) (remove_finalizer-IsProtected c (record s { cluster = w }) (gone (rw (h, n))))
        | inr n ↦ rw (h, n) read
      ]
  finalize_ends c s k (done mw) h gone p =
      let w = (C.get_work k s.cluster).1 in
      let read = IsProtected-IsStable C key work G s.cluster w (G.get_work k s.cluster) p in
      let deleted = IsProtected-IsStable C key work G w _ (G.delete_work_moves w mw) read in
      rw h (deletion_ends c mw (record s { cluster = w }) _ refl deleted)

  pub handle_capp_deletion-IsProtected :
      (c : Capp) (s : Run C.Cluster)
      → deletion_key c ≡ work
      → IsProtected C key work G s.cluster
      → IsProtected C key work G (handle_capp_deletion C c s).1.cluster
  unfolding handle_capp_deletion
  handle_capp_deletion-IsProtected c s same p =
      let ends = finalize_ends c s (deletion_key c) _ refl (rw same (G.missing s.cluster)) p in
      elim (Bool-cases (contains_finalizer c)) [ inl k ↦ rw k ends | inr k ↦ rw k p ]
