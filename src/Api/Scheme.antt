-- ===== src/Api/Scheme.antt =====
-- api/v1alpha1/groupversion_info.go: the group and the version of the RCSConfig, and the kinds that
-- api/v1alpha1/rcsconfig_types.go registers under them.
use rcs_ocm_deployer.Common.{String, List, [], ◌∷◌}

-- `schema.GroupVersion`
pub record GroupVersion : Type 0 where
  pub group : String
  pub version : String

-- `GroupVersion`
abbrev pub group_version : GroupVersion
group_version = record { group = "rcs.dana.io"; version = "v1alpha1" }

pub data Kind : Type 0 where
  rcs_config rcs_config_list : Kind

-- `scheme.Builder` of controller-runtime: a group and version, and the kinds registered so far.
pub record Builder : Type 0 where
  pub group_version : GroupVersion
  pub kinds : List Kind

-- `SchemeBuilder`
abbrev pub scheme_builder : Builder
scheme_builder = record { group_version = group_version; kinds = [] }

-- the objects that `init` of rcsconfig_types.go registers
abbrev pub registered_kinds : List Kind
registered_kinds = rcs_config ∷ rcs_config_list ∷ []
