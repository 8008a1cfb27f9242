-- ===== src/Sync/Builders.antt =====
-- internal/sync/builders/core.go, volumes.go and auth.go: the manifests of a ManifestWork.
use rcs_ocm_deployer.Common.{String, ◌<>◌, Option, none, some, List, [], ◌∷◌}
use rcs_ocm_deployer.Common.Dict.{Dict, insert}
use rcs_ocm_deployer.Api.Meta.{ObjectMeta, zero_meta}
use rcs_ocm_deployer.Api.Workload.{Capp}
use rcs_ocm_deployer.Api.Work.{
  Manifest, capp, namespace, config_map, secret, role, role_binding, ConfigMap, Secret, Subject,
}
use rcs_ocm_deployer.Runtime.Client.{Externals}
use rcs_ocm_deployer.Utils.{managed_by_label_key, managed_by_label_value}

-- `map[string]string{utils.MangedByLableKey: utils.MangedByLabelValue}`
abbrev pub managed_labels : Option (Dict String)
managed_labels = some ((managed_by_label_key, managed_by_label_value) ∷ [])

-- `metav1.ObjectMeta` with a name, a namespace and the label
abbrev pub managed_meta : String → String → ObjectMeta
managed_meta name ns = record zero_meta { name = name; namespace = ns; labels = managed_labels }

-- `cappLabels` of `BuildCapp`. Where the Capp has labels, the caller's map gets the label too;
-- nothing reads it there afterwards.
unfoldable pub capp_labels : Option (Dict String) → Dict String
capp_labels none = insert managed_by_label_key managed_by_label_value []
capp_labels (some labels) = insert managed_by_label_key managed_by_label_value labels

module _ (E : Externals) where
  -- `BuildCapp`
  unfoldable pub build_capp : Capp → Manifest
  build_capp c = capp (record c {
    type_meta = record { api_version = E.capp_group_version; kind = c.type_meta.kind };
    metadata = record zero_meta {
      name = c.name;
      namespace = c.namespace;
      labels = some (capp_labels c.labels);
      annotations = c.annotations;
    };
  })

  -- `BuildNamespace`
  unfoldable pub build_namespace : String → Manifest
  build_namespace name = namespace (record {
    type_meta = record { kind = "Namespace"; api_version = E.core_version };
    metadata = record zero_meta { name = name; labels = managed_labels };
  })

-- `BuildConfigMap`
unfoldable pub build_config_map : ConfigMap → Manifest
build_config_map cm = config_map (record {
  type_meta = record { kind = "ConfigMap"; api_version = "v1" };
  metadata = managed_meta cm.metadata.name cm.metadata.namespace;
  contents = cm.contents;
  binary_contents = none;
})

-- `BuildSecret`
unfoldable pub build_secret : Secret → Manifest
build_secret s = secret (record {
  type_meta = record { kind = "Secret"; api_version = "v1" };
  metadata = managed_meta s.metadata.name s.metadata.namespace;
  contents = s.contents;
  secret_type = s.secret_type;
})

-- `BuildRole`
unfoldable pub build_role : String → String → Manifest
build_role capp_name ns = role (record {
  type_meta = record { kind = "Role"; api_version = "rbac.authorization.k8s.io/v1" };
  metadata = managed_meta (capp_name <> "-logs-reader") ns;
  rules =
      record {
        resources = "pod/logs" ∷ [];
        api_groups = "" ∷ [];
        verbs = "get" ∷ "watch" ∷ "list" ∷ [];
      }
      ∷ [];
})

-- `BuildRoleBinding`
unfoldable pub build_role_binding : String → String → List Subject → Manifest
build_role_binding capp_name ns subjects = role_binding (record {
  type_meta = record { kind = "RoleBinding"; api_version = "rbac.authorization.k8s.io/v1" };
  metadata = managed_meta (capp_name <> "-logs-reader") ns;
  role_ref = record {
    name = capp_name <> "-logs-reader";
    api_group = "rbac.authorization.k8s.io";
    kind = "Role";
  };
  subjects = subjects;
})
