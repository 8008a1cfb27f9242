-- ===== src/Webhooks/Mutator/Patched.antt =====
-- What the webhook that mutates a Capp answers, and what it does to the annotations.
use rcs_ocm_deployer.Common.{
  String, ◌≡◌, ◌↔◌, refl, not, ◌&&◌, Option, none, some, ◌==◌, arith, if◌then◌else◌,
}
use rcs_ocm_deployer.Common.Dict.{Dict, lookup, lookup_nil, lookup-insert}
use rcs_ocm_deployer.Api.Meta.{NamespacedName}
use rcs_ocm_deployer.Api.Workload.{Capp, RcsConfig}
use rcs_ocm_deployer.Runtime.Outcome.{ok, panic, Error, done, failed}
use rcs_ocm_deployer.Runtime.Client.{Client}
use rcs_ocm_deployer.Runtime.Action.{Run}
use rcs_ocm_deployer.Utils.{rcs_config_name, rcs_config_namespace}
use rcs_ocm_deployer.Webhooks.Admission.{Codec, Request, patch_response_from_raw}
use rcs_ocm_deployer.Webhooks.Common.{get_rcs_config}
use rcs_ocm_deployer.Webhooks.Mutator.{
  or_new, last_updated_by_key, is_excluded_service_account, mutate_annotations, mutate, handle,
}

lookup-or_new : (j : String) (o : Option (Dict String)) → lookup j (or_new o) ≡ lookup_nil j o
unfolding lookup
lookup-or_new j none = refl
lookup-or_new j (some m) = refl

-- The annotation `last-updated-by` holds the user, unless the user is excluded; every other
-- annotation, and this one for an excluded user, is as it was.
pub lookup-mutate_annotations :
    (c : Capp) (u j : String)
    → lookup_nil j (mutate_annotations c u).annotations ≡ (
        if not (is_excluded_service_account u) && last_updated_by_key == j
        then some u
        else lookup_nil j c.annotations)
unfolding mutate_annotations
lookup-mutate_annotations c u j = grind (
  arith,
  lookup-or_new j c.annotations,
  lookup-insert last_updated_by_key j u (or_new c.annotations),
)

module _ (J : Codec) (C : Client) (req : Request J) where
  abbrev pub config_key : NamespacedName
  config_key = record { name = rcs_config_name; namespace = rcs_config_namespace }

  -- The webhook panics exactly when it can decode the object and cannot read the RCSConfig.
  pub handle-eq-panic_iff :
      (s : Run C.Cluster)
      → ((handle J C req s).0 ≡ panic) ↔ (
          ((c : Capp) × (J.decode_raw req.object ≡ done c))
          × ((e : Error) × ((C.get_config config_key s.cluster).0 ≡ failed e)))
  unfolding handle get_rcs_config
  handle-eq-panic_iff s = ground arith

  -- A patch is answered exactly when the object can be decoded, the RCSConfig can be read and the
  -- mutated Capp can be encoded; it leads from the object of the request to the mutated Capp.
  pub handle-eq-patch_iff :
      (s : Run C.Cluster) (before after : J.Raw)
      → ((handle J C req s).0 ≡ ok (patch_response_from_raw before after)) ↔ (
          (before ≡ req.object)
          × ((c : Capp) × (config : RcsConfig) × (J.decode_raw req.object ≡ done c)
              × ((C.get_config config_key s.cluster).0 ≡ done config)
              × (J.marshal (mutate c config req.username) ≡ done after)))
  unfolding handle get_rcs_config
  handle-eq-patch_iff s before after = ground arith
