-- ===== src/Runtime/Client.antt =====
-- controller-runtime's `client.Client` and the other libraries that the program calls, as an
-- interface. Every call may change the cluster, since others write to it at the same time.
use rcs_ocm_deployer.Common.{String, Option, List}
use rcs_ocm_deployer.Api.Meta.{NamespacedName}
use rcs_ocm_deployer.Api.Workload.{Capp, RcsConfig}
use rcs_ocm_deployer.Api.Work.{
  ManifestWork, ConfigMap, Secret, RoleBinding, PlacementDecisionList, ListOptions,
}
use rcs_ocm_deployer.Runtime.Outcome.{Error, Reply}

-- `client.Client`, one operation for each verb and type that the program uses. An update hands
-- back the object that the server answered with, which the library writes through the pointer.
pub record Client : Type 1 where
  pub Cluster : Type 0
  pub get_config : NamespacedName → Cluster → Reply RcsConfig × Cluster
  pub get_capp : NamespacedName → Cluster → Reply Capp × Cluster
  -- of a Placement only whether it can be read
  pub get_placement : NamespacedName → Cluster → Reply Unit × Cluster
  pub get_work : NamespacedName → Cluster → Reply ManifestWork × Cluster
  pub get_config_map : NamespacedName → Cluster → Reply ConfigMap × Cluster
  pub get_secret : NamespacedName → Cluster → Reply Secret × Cluster
  pub list_decisions : ListOptions → Cluster → Reply PlacementDecisionList × Cluster
  -- the RoleBindings of a namespace
  pub list_role_bindings : String → Cluster → Reply (List RoleBinding) × Cluster
  -- the names of the ManagedClusters
  pub list_managed_clusters : Cluster → Reply (List String) × Cluster
  pub update_capp : Capp → Cluster → Reply Capp × Cluster
  pub update_capp_status : Capp → Cluster → Reply Capp × Cluster
  pub create_work : ManifestWork → Cluster → Reply Unit × Cluster
  pub update_work : ManifestWork → Cluster → Reply Unit × Cluster
  pub delete_work : ManifestWork → Cluster → Reply Unit × Cluster

-- What the program uses of other packages besides the client.
pub record Externals : Type 0 where
  -- the verb `%q` of fmt
  pub quote : String → String
  -- `cappv1alpha1.GroupVersion.String()`
  pub capp_group_version : String
  -- `corev1.SchemeGroupVersion.Version`
  pub core_version : String
  -- `clusterv1beta1.PlacementLabel`
  pub placement_label : String
  -- `labels.NewRequirement(key, selection.Equals, []string{value})`: its error, if there is one
  pub requirement_error : String → String → Option Error
