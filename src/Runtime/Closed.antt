-- ===== src/Runtime/Closed.antt =====
-- A predicate on the cluster that the calls made for one Capp leave true.
use rcs_ocm_deployer.Common.{String, ◌≡◌}
use rcs_ocm_deployer.Api.Meta.{NamespacedName}
use rcs_ocm_deployer.Api.Workload.{Capp}
use rcs_ocm_deployer.Api.Work.{ManifestWork, ListOptions}
use rcs_ocm_deployer.Runtime.Outcome.{done}
use rcs_ocm_deployer.Runtime.Client.{Client}

abbrev pub capp_key_of : Capp → NamespacedName
capp_key_of c = record { name = c.name; namespace = c.namespace }

-- The calls are all reads, updates of the Capp `key` and of its status, updates and deletions of
-- ManifestWorks, and the creation of one under the name that `mw_name` gives to the Capp.
pub record IsClosed (C : Client) (mw_name : Capp → String) (key : NamespacedName)
    (Q : C.Cluster → Type 0) : Type 0 where
  pub get_config : (k : NamespacedName) (w : C.Cluster) → Q w → Q (C.get_config k w).1
  pub get_capp : (k : NamespacedName) (w : C.Cluster) → Q w → Q (C.get_capp k w).1
  pub get_placement : (k : NamespacedName) (w : C.Cluster) → Q w → Q (C.get_placement k w).1
  pub get_work : (k : NamespacedName) (w : C.Cluster) → Q w → Q (C.get_work k w).1
  pub get_config_map : (k : NamespacedName) (w : C.Cluster) → Q w → Q (C.get_config_map k w).1
  pub get_secret : (k : NamespacedName) (w : C.Cluster) → Q w → Q (C.get_secret k w).1
  pub list_decisions : (o : ListOptions) (w : C.Cluster) → Q w → Q (C.list_decisions o w).1
  pub list_role_bindings : (ns : String) (w : C.Cluster) → Q w → Q (C.list_role_bindings ns w).1
  -- what is read under the key, or answered to an update of its status, has the key
  pub read_key : (w : C.Cluster) (c : Capp) → (C.get_capp key w).0 ≡ done c → capp_key_of c ≡ key
  pub answer_key :
      (w : C.Cluster) (a b : Capp)
      → capp_key_of a ≡ key
      → (C.update_capp_status a w).0 ≡ done b
      → capp_key_of b ≡ key
  pub update_capp : (a : Capp) (w : C.Cluster) → capp_key_of a ≡ key → Q w → Q (C.update_capp a w).1
  pub update_capp_status :
      (a : Capp) (w : C.Cluster) → capp_key_of a ≡ key → Q w → Q (C.update_capp_status a w).1
  pub create_work :
      (c : Capp) (mw : ManifestWork) (w : C.Cluster)
      → capp_key_of c ≡ key
      → mw.metadata.name ≡ mw_name c
      → Q w
      → Q (C.create_work mw w).1
  pub update_work : (mw : ManifestWork) (w : C.Cluster) → Q w → Q (C.update_work mw w).1
  pub delete_work : (mw : ManifestWork) (w : C.Cluster) → Q w → Q (C.delete_work mw w).1
