-- ===== src/Sync/Controller/Cleanup.antt =====
-- `Reconcile` for a Capp that is being deleted, made again and again: it comes to an end.
use rcs_ocm_deployer.Common.{
  ℕ, ◌+◌, ◌≤◌, ◌<◌, ◌≡◌, refl, ◌∙◌, ◌⊎◌, inl, inr, true, Option, none, some, [], ◌<>◌, arith,
  if◌then◌else◌,
}
use rcs_ocm_deployer.Api.Meta.{NamespacedName}
use rcs_ocm_deployer.Api.Workload.{Capp}
use rcs_ocm_deployer.Api.Work.{ManifestWork}
use rcs_ocm_deployer.Runtime.Outcome.{errorf, error_text, is_not_found, Reply, done, failed}
use rcs_ocm_deployer.Runtime.Client.{Client}
use rcs_ocm_deployer.Runtime.Action.{
  Run, Action, pure, raise, continue, attempt, delete_work, ◌>>=◌,
}
use rcs_ocm_deployer.Runtime.Calls.{send}
use rcs_ocm_deployer.Runtime.Patient.{IsRead, IsPatient}
use rcs_ocm_deployer.Runtime.Shared.{IsSameVersion}
use rcs_ocm_deployer.Sync.Adapters.{
  contains_finalizer, without_finalizer, finalizer_removed, finalize_capp, remove_finalizer,
  handle_capp_deletion,
}
use rcs_ocm_deployer.Sync.Controller.Deletion.{deletion_key}

abbrev pub flag : {A : Type 0} → Option A → ℕ
flag none = 0
flag (some a) = 1

pub flag-le : {A : Type 0} → (o : Option A) → flag o ≤ 1
flag-le none = omega arith
flag-le (some a) = omega arith

module _ (C : Client) (key work_key : NamespacedName) (P : IsPatient C key work_key) where
  -- The Capp is being deleted and has the finalizer and no other, and its ManifestWork is the one
  -- of the key.
  abbrev pub IsDying : Capp → Type 0
  IsDying c =
      ((t : ℕ) × (c.deletion_timestamp ≡ some t))
      × (contains_finalizer c ≡ true)
      × (without_finalizer c.finalizers ≡ [])
      × (deletion_key c ≡ work_key)

  abbrev pub IsDeleting : C.Cluster → Type 0
  IsDeleting w = (c : Capp) × (P.capp w ≡ some c) × IsDying c

  -- neither the Capp nor the ManifestWork is stored
  abbrev pub IsClean : C.Cluster → Type 0
  IsClean w = (P.capp w ≡ none) × (P.work w ≡ none)

  -- the failures to come, and the objects that are left
  abbrev pub measure : C.Cluster → ℕ
  measure w = P.patience w + (flag (P.capp w) + flag (P.work w))

  abbrev pub IsLeft : C.Cluster → Type 0
  IsLeft w = IsDeleting w ⊎ IsClean w

  abbrev pub Falls : ℕ → C.Cluster → Type 0
  Falls n v = IsLeft v × (measure v < n)

  -- a call that failed
  pub call_failed :
      (n : ℕ) (w v : C.Cluster)
      → IsLeft w
      → P.capp v ≡ P.capp w
      → P.work v ≡ P.work w
      → P.patience v < P.patience w
      → measure w ≤ n
      → Falls n v
  call_failed n w v left same same' less le = rw (same, same') (left, omega (arith, less, le))

  same_version : (c : Capp) → IsSameVersion c (finalizer_removed c)
  unfolding finalizer_removed
  same_version c = (refl, refl, refl)

  deleted_stays :
      (c : Capp)
      → IsDying c
      → ((t : ℕ) × ((finalizer_removed c).deletion_timestamp ≡ some t))
        × ((finalizer_removed c).finalizers ≡ [])
  unfolding finalizer_removed
  deleted_stays c (deleting, has_it, only_it, same) = (deleting, only_it)

  removed :
      (n : ℕ) (c : Capp) (s : Run C.Cluster) (r : Reply Capp)
      → (C.update_capp (finalizer_removed c) s.cluster).0 ≡ r
      → P.capp s.cluster ≡ some c
      → IsDying c
      → P.work s.cluster ≡ none
      → measure s.cluster ≤ n
      → Falls n (remove_finalizer C c s).1.cluster
  unfolding remove_finalizer
  removed n c s (failed e) h found dying gone le =
      let (same, same', less) = P.update_refused s.cluster (finalizer_removed c) (rw h refl) in
      rw h (call_failed n s.cluster _ (inl (c, found, dying)) same same' less le)
  removed n c s (done a) h found dying gone le =
      let ((t, deleting), free) = deleted_stays c dying in
      let (none_left, same, less) =
        P.update_accepted s.cluster c (finalizer_removed c) t found (same_version c) deleting free
          (rw h refl) in
      rw h (
        inr (none_left, same ∙ gone),
        rw (none_left, same, gone) (omega (arith, less, let le' = rw (found, gone) at le in le')),
      )

  deletion_sent :
      (n : ℕ) (c : Capp) (mw : ManifestWork) (s : Run C.Cluster) (r : Reply (Unit {0}))
      → (C.delete_work mw s.cluster).0 ≡ r
      → Falls n (C.delete_work mw s.cluster).1
      → Falls n
          (continue
            (attempt
              (do
                deleted ← send (delete_work mw) (C.delete_work mw)
                elim deleted as (λ r. Action C.Cluster (Unit {0})) [
                  | failed e ↦ raise (errorf ("unable to delete ManifestWork: " <> error_text e))
                  | done _ ↦ pure tt
                ])
              s)
            (λ finalized. elim finalized as (λ t. Action C.Cluster (Unit {0})) [
              | failed e ↦ if is_not_found e then remove_finalizer C c else raise e
              | done _ ↦ pure tt
            ])).1.cluster
  unfolding is_not_found
  deletion_sent n c mw s (failed e) h p = rw h p
  deletion_sent n c mw s (done u) h p = rw h p

  -- a deletion that was sent
  delete_work-Falls :
      (n : ℕ) (w : C.Cluster) (mw : ManifestWork)
      → IsDeleting w
      → P.work w ≡ some mw
      → measure w ≤ n
      → Falls n (C.delete_work mw w).1
  delete_work-Falls n w mw (c, found, dying) there le =
      let (same, gone) = P.delete_work w mw there in
      let v = (C.delete_work mw w).1 in
      let le' : P.patience w + (1 + 1) ≤ n = rw (found, there) at le in
      let one = flag-le (P.work v) in
      let left : IsLeft v = inl (c, same ∙ found, dying) in
      elim gone [
        | inl (none_left, less) ↦ (left, rw (same, found, none_left) (omega (arith, less, le')))
        | inr less ↦ (left, rw (same, found) (omega (arith, less, le', one)))
      ]

  -- what the deletion does with the ManifestWork that it read
  work_read :
      (n : ℕ) (c : Capp) (s : Run C.Cluster) (r : Reply ManifestWork)
      → (C.get_work work_key s.cluster).0 ≡ r
      → P.capp s.cluster ≡ some c
      → IsDying c
      → measure s.cluster ≤ n
      → Falls n
          (continue (attempt (finalize_capp C work_key.name work_key.namespace) s) (λ finalized.
            elim finalized as (λ t. Action C.Cluster (Unit {0})) [
              | failed e ↦ if is_not_found e then remove_finalizer C c else raise e
              | done _ ↦ pure tt
            ])).1.cluster
  unfolding finalize_capp
  work_read n c s (failed e) h found dying le =
      let (read, same, same') = P.get_work s.cluster in
      let v = (C.get_work work_key s.cluster).1 in
      let read' : IsRead (failed e) (P.work s.cluster) (P.patience s.cluster) (P.patience v) =
        rw h at read in
      elim read' [
        | inl (missing, gone, less) ↦
            rw (h, missing)
              (removed n c (record s { cluster = v }) _ refl (same ∙ found) dying (same' ∙ gone)
                (rw (same, same') (omega (arith, less, le))))
        | inr (other, less) ↦
            rw (h, other) (call_failed n s.cluster v (inl (c, found, dying)) same same' less le)
      ]
  work_read n c s (done mw) h found dying le =
      let (read, same, same') = P.get_work s.cluster in
      let v = (C.get_work work_key s.cluster).1 in
      let (there, less) : IsRead (done mw) (P.work s.cluster) (P.patience s.cluster)
          (P.patience v) =
        rw h at read in
      rw h (
        deletion_sent n c mw (record s { cluster = v }) _ refl
          (delete_work-Falls n v mw (c, same ∙ found, dying) (same' ∙ there)
            (rw (same, same') (omega (arith, less, le)))))

  pub handle_capp_deletion-Falls :
      (n : ℕ) (c : Capp) (s : Run C.Cluster)
      → P.capp s.cluster ≡ some c
      → IsDying c
      → measure s.cluster ≤ n
      → Falls n (handle_capp_deletion C c s).1.cluster
  unfolding handle_capp_deletion
  handle_capp_deletion-Falls n c s found dying le =
      let (deleting, has_it, only_it, same) = dying in
      rw (has_it, same) (work_read n c s _ refl found dying le)
