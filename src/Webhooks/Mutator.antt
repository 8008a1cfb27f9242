-- ===== src/Webhooks/Mutator.antt =====
-- internal/webhooks/mutator.go
pub mod Memory
pub mod Fill
pub mod Defaults
pub mod Users
pub mod Patched
pub mod Again
use rcs_ocm_deployer.Common.{
  ℕ, String, ◌<>◌, Bool, false, ◌&&◌, Option, none, some, List, [], ◌∷◌, ◌==◌, nat_eq, length,
  if◌then◌else◌,
}
use rcs_ocm_deployer.Common.Dict.{Dict, insert}
use rcs_ocm_deployer.Common.Texts.{split_colon}
use rcs_ocm_deployer.Api.Workload.{Capp, Resources, RcsConfig}
use rcs_ocm_deployer.Runtime.Outcome.{Reply, done, failed}
use rcs_ocm_deployer.Runtime.Client.{Client}
use rcs_ocm_deployer.Runtime.Action.{Action, pure, abort, ◌>>=◌}
use rcs_ocm_deployer.Utils.{rcs_api_group}
use rcs_ocm_deployer.Webhooks.Admission.{
  Codec, Request, Response, errored, patch_response_from_raw, status_bad_request,
  status_internal_server_error,
}
use rcs_ocm_deployer.Webhooks.Common.{get_rcs_config}
use rcs_ocm_deployer.Webhooks.Mutator.Memory.{mutate_containers}

abbrev pub last_updated_by_key : String
last_updated_by_key = rcs_api_group <> "/last-updated-by"

-- `ExcludedServiceAccountNamespace`
abbrev pub excluded_namespace : String
excluded_namespace = "rcs-deployer-system"

-- `usernamePartsCount`
abbrev pub username_parts_count : ℕ
username_parts_count = 4

-- `parts[namespaceIndex]` with `namespaceIndex = 2`
abbrev pub part_is_excluded : List String → Bool
part_is_excluded (a ∷ b ∷ ns ∷ rest) = ns == excluded_namespace
part_is_excluded _ = false

-- `isExcludedServiceAccount`
unfoldable pub is_excluded_service_account : String → Bool
is_excluded_service_account username =
    let parts = split_colon username in
    nat_eq (length parts) username_parts_count && part_is_excluded parts

abbrev pub or_new : Option (Dict String) → Dict String
or_new none = []
or_new (some m) = m

-- `mutateAnnotations`
unfoldable pub mutate_annotations : Capp → String → Capp
mutate_annotations c username =
    let annotations = or_new c.annotations in
    record c {
      metadata = record c.metadata {
        annotations = some (
            if is_excluded_service_account username
            then annotations
            else insert last_updated_by_key username annotations);
      };
    }

-- `mutateResources`
unfoldable pub mutate_resources : Capp → Resources → Capp
mutate_resources c default_resources = record c {
  spec = record c.spec {
    pod = record c.spec.pod {
      containers = mutate_containers c.spec.pod.containers default_resources;
    };
  };
}

-- `CappMutator.handle`
unfoldable pub mutate : Capp → RcsConfig → String → Capp
mutate c config username =
    mutate_resources (mutate_annotations c username) config.spec.default_resources

module _ (J : Codec) (C : Client) where
  abbrev marshalled : J.Raw → Reply J.Raw → Response J
  marshalled object (failed e) = errored status_internal_server_error e
  marshalled object (done raw) = patch_response_from_raw object raw

  -- `CappMutator.Handle`. The response made on a failed read of the RCSConfig is not returned,
  -- and `handle` then reads a field of the nil pointer.
  unfoldable pub handle : Request J → Action C.Cluster (Response J)
  handle req = elim (J.decode_raw req.object) [
    | failed e ↦ pure (errored status_bad_request e)
    | done c ↦ do
      config_read ← get_rcs_config C
      elim config_read [
        | failed e ↦ abort
        | done config ↦ pure (marshalled req.object (J.marshal (mutate c config req.username)))
      ]
  ]
