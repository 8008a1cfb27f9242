-- ===== src/Utils.antt =====
-- internal/utils/capp.go, internal/utils/events/events.go and the group of
-- api/v1alpha1/groupversion_info.go: shared names, and the test for a placed Capp.
pub mod Placed
use rcs_ocm_deployer.Common.{String, ◌<>◌, Bool, false, not, Option, none, some, [], ◌∷◌, ◌==◌}
use rcs_ocm_deployer.Common.Dict.{Dict, lookup}
use rcs_ocm_deployer.Api.Scheme.{group_version}
use rcs_ocm_deployer.Api.Workload.{Capp}

-- `RCSAPIGroup`, the group of `GroupVersion`
abbrev pub rcs_api_group : String
rcs_api_group = group_version.group

-- `MangedByLableKey`
abbrev pub managed_by_label_key : String
managed_by_label_key = rcs_api_group <> "/managed-by"

abbrev pub managed_by_label_value : String
managed_by_label_value = "rcs"

-- `AnnotationKeyHasPlacement`
abbrev pub has_placement_key : String
has_placement_key = rcs_api_group <> "/has-placement"

abbrev pub rcs_config_name : String
rcs_config_name = "rcs-config"

abbrev pub rcs_config_namespace : String
rcs_config_namespace = "rcs-deployer-system"

abbrev pub event_capp_scheduled : String
event_capp_scheduled = "CappScheduled"

abbrev pub event_volume_not_found : String
event_volume_not_found = "VolumeNotFound"

abbrev pub event_auth_failed : String
event_auth_failed = "AuthManifestsCreationFailed"

abbrev pub event_work_created : String
event_work_created = "ManifestWorkCreated"

abbrev pub event_work_creation_failed : String
event_work_creation_failed = "ManifestWorkCreationFailed"

-- `ok && len(namespace) > 0`
abbrev pub non_empty : Option String → Bool
non_empty none = false
non_empty (some s) = not (s == "")

-- the tests of `ContainsPlacementAnnotation`, on the annotations
unfoldable pub placed_by : Option (Dict String) → Bool
placed_by none = false
placed_by (some []) = false
placed_by (some (b ∷ m)) = non_empty (lookup has_placement_key (b ∷ m))

-- `ContainsPlacementAnnotation`
unfoldable pub contains_placement_annotation : Capp → Bool
unfolding placed_by
contains_placement_annotation c = placed_by c.annotations
