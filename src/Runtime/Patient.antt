-- ===== src/Runtime/Patient.antt =====
-- What the API server promises of a Capp that is being deleted, where calls fail and the agent of
-- the managed cluster takes its time, but not for ever.
use rcs_ocm_deployer.Common.{ℕ, ◌≤◌, ◌<◌, ◌≡◌, ◌⊎◌, true, false, Option, none, some, []}
use rcs_ocm_deployer.Api.Meta.{NamespacedName}
use rcs_ocm_deployer.Api.Workload.{Capp}
use rcs_ocm_deployer.Api.Work.{ManifestWork}
use rcs_ocm_deployer.Runtime.Outcome.{Reply, done, failed, is_not_found}
use rcs_ocm_deployer.Runtime.Client.{Client}
use rcs_ocm_deployer.Runtime.Shared.{IsSameVersion}
use rcs_ocm_deployer.Runtime.WorkStore.{accepted}

-- A read answers what is stored, or NotFound where nothing is; or it fails otherwise, which uses up
-- some of the patience `p` and leaves `q`.
abbrev pub IsRead : {A : Type 0} → Reply A → Option A → ℕ → ℕ → Type 0
IsRead (done a) o p q = (o ≡ some a) × (q ≤ p)
IsRead (failed e) o p q =
    ((is_not_found e ≡ true) × (o ≡ none) × (q ≤ p)) ⊎ ((is_not_found e ≡ false) × (q < p))

-- The Capp and the ManifestWork under the two keys, which nobody else creates or updates.
pub record IsPatient (C : Client) (capp_key work_key : NamespacedName) : Type 0 where
  pub capp : C.Cluster → Option Capp
  pub work : C.Cluster → Option ManifestWork
  -- how many more calls may fail, and how many more deletions may leave the ManifestWork stored
  pub patience : C.Cluster → ℕ
  pub get_capp :
      (w : C.Cluster)
      → let (r, v) = C.get_capp capp_key w in
        IsRead r (capp w) (patience w) (patience v) × (capp v ≡ capp w) × (work v ≡ work w)
  pub get_work :
      (w : C.Cluster)
      → let (r, v) = C.get_work work_key w in
        IsRead r (work w) (patience w) (patience v) × (capp v ≡ capp w) × (work v ≡ work w)
  -- A Capp that is being deleted is gone once an update leaves it without finalizers.
  pub update_accepted :
      (w : C.Cluster) (c a : Capp) (t : ℕ)
      → capp w ≡ some c
      → IsSameVersion c a
      → a.deletion_timestamp ≡ some t
      → a.finalizers ≡ []
      → let (r, v) = C.update_capp a w in
        accepted r ≡ true → (capp v ≡ none) × (work v ≡ work w) × (patience v ≤ patience w)
  pub update_refused :
      (w : C.Cluster) (a : Capp)
      → let (r, v) = C.update_capp a w in
        accepted r ≡ false → (capp v ≡ capp w) × (work v ≡ work w) × (patience v < patience w)
  -- A deletion fails, or the ManifestWork is gone or still has finalizers, which the agent of the
  -- managed cluster takes away when it has deleted the objects there.
  pub delete_work :
      (w : C.Cluster) (mw : ManifestWork)
      → work w ≡ some mw
      → let v = (C.delete_work mw w).1 in
        (capp v ≡ capp w)
        × (((work v ≡ none) × (patience v ≤ patience w)) ⊎ (patience v < patience w))
