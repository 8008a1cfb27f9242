-- ===== src/Runtime/Retrying.antt =====
-- An API server that refuses writes of ManifestWorks, but not for ever.
use rcs_ocm_deployer.Common.{ℕ, ◌<◌, ◌≡◌, false, none, some}
use rcs_ocm_deployer.Api.Work.{ManifestWork}
use rcs_ocm_deployer.Runtime.Client.{Client}
use rcs_ocm_deployer.Runtime.WorkStore.{accepted, key_of, IsWorkStore}

-- The creation of a ManifestWork that is not stored, or the update of one that is: if it is refused,
-- it leaves `Rest` true of the cluster and uses up patience.
pub record IsRetrying (C : Client) (L : IsWorkStore C) (Rest : C.Cluster → Type 0) : Type 0 where
  -- how many more writes may be refused
  pub patience : C.Cluster → ℕ
  pub create_refused :
      (w : C.Cluster) (mw : ManifestWork)
      → let (r, v) = C.create_work mw w in
        Rest w
        → L.stored w (key_of mw) ≡ none
        → accepted r ≡ false
        → Rest v × (patience v < patience w)
  pub update_refused :
      (w : C.Cluster) (mw old : ManifestWork)
      → let (r, v) = C.update_work mw w in
        Rest w
        → L.stored w (key_of mw) ≡ some old
        → accepted r ≡ false
        → Rest v × (patience v < patience w)
