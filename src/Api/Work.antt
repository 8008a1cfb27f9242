-- ===== src/Api/Work.antt =====
-- The ManifestWork with the objects that it carries, and the placement and RBAC objects.
use rcs_ocm_deployer.Common.{String, Option, List}
use rcs_ocm_deployer.Common.Dict.{Dict}
use rcs_ocm_deployer.Api.Meta.{TypeMeta, ObjectMeta}
use rcs_ocm_deployer.Api.Workload.{Capp}

-- `corev1.Namespace`
pub record Namespace : Type 0 where
  pub type_meta : TypeMeta
  pub metadata : ObjectMeta

-- `corev1.ConfigMap`; `contents` is `Data`, `binary_contents` is `BinaryData`
pub record ConfigMap : Type 0 where
  pub type_meta : TypeMeta
  pub metadata : ObjectMeta
  pub contents : Option (Dict String)
  pub binary_contents : Option (Dict String)

-- `corev1.Secret`; `contents` is `Data`, `secret_type` is `Type`
pub record Secret : Type 0 where
  pub type_meta : TypeMeta
  pub metadata : ObjectMeta
  pub contents : Option (Dict String)
  pub secret_type : String

-- `rbacv1.PolicyRule`
pub record PolicyRule : Type 0 where
  pub resources : List String
  pub api_groups : List String
  pub verbs : List String

-- `rbacv1.Role`
pub record Role : Type 0 where
  pub type_meta : TypeMeta
  pub metadata : ObjectMeta
  pub rules : List PolicyRule

-- `rbacv1.Subject`
pub record Subject : Type 0 where
  pub kind : String
  pub api_group : String
  pub name : String

-- `rbacv1.RoleRef`
pub record RoleRef : Type 0 where
  pub api_group : String
  pub kind : String
  pub name : String

-- `rbacv1.RoleBinding`
pub record RoleBinding : Type 0 where
  pub type_meta : TypeMeta
  pub metadata : ObjectMeta
  pub subjects : List Subject
  pub role_ref : RoleRef

-- `workv1.Manifest`, by the object in its `RawExtension`
pub data Manifest : Type 0 where
  capp : Capp → Manifest
  namespace : Namespace → Manifest
  config_map : ConfigMap → Manifest
  secret : Secret → Manifest
  role : Role → Manifest
  role_binding : RoleBinding → Manifest

-- `workv1.ManifestConfigOption`, by its resource identifier
pub record ManifestConfigOption : Type 0 where
  pub group : String
  pub resource : String
  pub name : String
  pub namespace : String

-- `workv1.ManifestWork`
pub record ManifestWork : Type 0 where
  pub type_meta : TypeMeta
  pub metadata : ObjectMeta
  pub manifests : List Manifest
  pub manifest_configs : List ManifestConfigOption

-- `clusterv1beta1.PlacementDecision`, by the cluster names of its decisions
pub record PlacementDecision : Type 0 where
  pub decisions : List String

-- `clusterv1beta1.PlacementDecisionList`
pub record PlacementDecisionList : Type 0 where
  pub items : List PlacementDecision

-- the part of a `client.ListOptions` that the placement adapter fills
pub record ListOptions : Type 0 where
  pub label_key : String
  pub label_value : String
  pub namespace : String
