-- ===== src/Runtime/Shared.antt =====
-- What the API server promises of one Capp and one ManifestWork while others use it too.
use rcs_ocm_deployer.Common.{String, ◌≡◌, Bool, true, false}
use rcs_ocm_deployer.Api.Meta.{NamespacedName}
use rcs_ocm_deployer.Api.Workload.{Capp}
use rcs_ocm_deployer.Api.Work.{ManifestWork, ListOptions}
use rcs_ocm_deployer.Runtime.Outcome.{done}
use rcs_ocm_deployer.Runtime.Client.{Client}
use rcs_ocm_deployer.Runtime.WorkStore.{accepted, answers_not_found}

-- the same object in the same version
abbrev pub IsSameVersion : Capp → Capp → Type 0
IsSameVersion c a =
    (a.name ≡ c.name) × (a.namespace ≡ c.namespace) × (a.resource_version ≡ c.resource_version)

-- The finalizer `finalizer` of the Capp `capp_key` and the ManifestWork `work_key`. Others may do
-- what `Moves` allows, between any two calls and within one: they do not take the finalizer away,
-- and they do not create the ManifestWork.
pub record IsShared (C : Client) (capp_key work_key : NamespacedName) (has : Capp → Bool)
    : Type 1 where
  -- the stored Capp has the finalizer
  pub finalized : C.Cluster → Bool
  -- the ManifestWork is stored
  pub present : C.Cluster → Bool
  -- an object that was read or answered, in the version that it still has or had before
  pub Seen : Capp → C.Cluster → Type 0
  pub Moves : C.Cluster → C.Cluster → Type 0
  pub moves_finalized : {w v : C.Cluster} → Moves w v → finalized w ≡ true → finalized v ≡ true
  pub moves_present : {w v : C.Cluster} → Moves w v → present v ≡ true → present w ≡ true
  -- reads
  pub get_config : (k : NamespacedName) (w : C.Cluster) → Moves w (C.get_config k w).1
  pub get_capp : (k : NamespacedName) (w : C.Cluster) → Moves w (C.get_capp k w).1
  pub get_placement : (k : NamespacedName) (w : C.Cluster) → Moves w (C.get_placement k w).1
  pub get_work : (k : NamespacedName) (w : C.Cluster) → Moves w (C.get_work k w).1
  pub get_config_map : (k : NamespacedName) (w : C.Cluster) → Moves w (C.get_config_map k w).1
  pub get_secret : (k : NamespacedName) (w : C.Cluster) → Moves w (C.get_secret k w).1
  pub list_decisions : (o : ListOptions) (w : C.Cluster) → Moves w (C.list_decisions o w).1
  pub list_role_bindings : (ns : String) (w : C.Cluster) → Moves w (C.list_role_bindings ns w).1
  -- what is read is what is stored at that moment, not what a cache still has
  pub seen :
      (w : C.Cluster) (c : Capp)
      → (C.get_capp capp_key w).0 ≡ done c
      → Seen c (C.get_capp capp_key w).1
  pub seen_finalized :
      (w : C.Cluster) (c : Capp)
      → (C.get_capp capp_key w).0 ≡ done c
      → has c ≡ true
      → finalized (C.get_capp capp_key w).1 ≡ true
  pub missing :
      (w : C.Cluster)
      → answers_not_found (C.get_work work_key w).0 ≡ true
      → present (C.get_work work_key w).1 ≡ false
  -- a version that was seen stays the one that was seen
  pub moves_seen : {w v : C.Cluster} (c : Capp) → Moves w v → Seen c w → Seen c v
  -- An update of the Capp is accepted only for the stored version. It replaces the finalizers, and
  -- leaves ManifestWorks alone.
  pub update_refused :
      (w : C.Cluster) (a : Capp)
      → accepted (C.update_capp a w).0 ≡ false
      → Moves w (C.update_capp a w).1
  pub update_current :
      (w : C.Cluster) (c a : Capp)
      → Seen c w
      → IsSameVersion c a
      → accepted (C.update_capp a w).0 ≡ true
      → finalized w ≡ true
      → has c ≡ true
  pub update_finalizes :
      (w : C.Cluster) (c a : Capp)
      → Seen c w
      → IsSameVersion c a
      → accepted (C.update_capp a w).0 ≡ true
      → has a ≡ true
      → finalized (C.update_capp a w).1 ≡ true
  pub update_present :
      (w : C.Cluster) (a : Capp) → present (C.update_capp a w).1 ≡ true → present w ≡ true
  -- the status is another resource: an update of it leaves the finalizers alone
  pub status_moves : (w : C.Cluster) (a : Capp) → Moves w (C.update_capp_status a w).1
  pub status_seen :
      (w : C.Cluster) (c a b : Capp)
      → Seen c w
      → IsSameVersion c a
      → (C.update_capp_status a w).0 ≡ done b
      → Seen b (C.update_capp_status a w).1
  -- writes of ManifestWorks leave the Capp alone, and only a creation creates
  pub create_finalized :
      (w : C.Cluster) (mw : ManifestWork)
      → finalized w ≡ true
      → finalized (C.create_work mw w).1 ≡ true
  pub update_work_moves : (w : C.Cluster) (mw : ManifestWork) → Moves w (C.update_work mw w).1
  pub delete_work_moves : (w : C.Cluster) (mw : ManifestWork) → Moves w (C.delete_work mw w).1
