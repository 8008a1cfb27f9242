-- ===== src/Runtime/Quiet.antt =====
-- A cluster on which nothing else happens: reading leaves it as it is.
use rcs_ocm_deployer.Common.{String, ◌≡◌}
use rcs_ocm_deployer.Api.Meta.{NamespacedName}
use rcs_ocm_deployer.Api.Work.{ListOptions}
use rcs_ocm_deployer.Runtime.Client.{Client}

pub record IsQuiet (C : Client) : Type 0 where
  pub config : (k : NamespacedName) (w : C.Cluster) → (C.get_config k w).1 ≡ w
  pub capp : (k : NamespacedName) (w : C.Cluster) → (C.get_capp k w).1 ≡ w
  pub placement : (k : NamespacedName) (w : C.Cluster) → (C.get_placement k w).1 ≡ w
  pub work : (k : NamespacedName) (w : C.Cluster) → (C.get_work k w).1 ≡ w
  pub config_map : (k : NamespacedName) (w : C.Cluster) → (C.get_config_map k w).1 ≡ w
  pub secret : (k : NamespacedName) (w : C.Cluster) → (C.get_secret k w).1 ≡ w
  pub decisions : (o : ListOptions) (w : C.Cluster) → (C.list_decisions o w).1 ≡ w
  pub role_bindings : (ns : String) (w : C.Cluster) → (C.list_role_bindings ns w).1 ≡ w
  pub managed_clusters : (w : C.Cluster) → (C.list_managed_clusters w).1 ≡ w
