-- ===== src/Tests/WebhookRuns.antt =====
-- The theorems on the webhooks at concrete inputs.
use rcs_ocm_deployer.Common.{
  ◌≡◌, ◌↔◌, ◌⊎◌, String, true, not, ◌&&◌, none, some, [], ◌∷◌, map, ◌==◌, if◌then◌else◌,
}
use rcs_ocm_deployer.Common.Dict.{lookup_nil}
use rcs_ocm_deployer.Api.Workload.{Capp, LogSpec, RcsConfig}
use rcs_ocm_deployer.Runtime.Outcome.{Error, ok, panic, done, failed, status, not_found}
use rcs_ocm_deployer.Runtime.Action.{fresh}
use rcs_ocm_deployer.Webhooks.Admission.{allowed, patch_response_from_raw}
use rcs_ocm_deployer.Webhooks.Domain.{validate_domain_name}
use rcs_ocm_deployer.Webhooks.Domain.Accepted.{IsCollecting, IsFree, validate_domain_name-none_iff}
use rcs_ocm_deployer.Webhooks.Validator as Validator
use rcs_ocm_deployer.Webhooks.Validator.{handle_capp}
use rcs_ocm_deployer.Webhooks.Validator.Allowed.{Admits, handle_capp-allowed_iff}
use rcs_ocm_deployer.Webhooks.Mutator as Mutator
use rcs_ocm_deployer.Webhooks.Mutator.{
  last_updated_by_key, is_excluded_service_account, mutate_annotations, mutate,
}
use rcs_ocm_deployer.Webhooks.Mutator.Memory.{mutate_containers}
use rcs_ocm_deployer.Webhooks.Mutator.Fill.{fill_container}
use rcs_ocm_deployer.Webhooks.Mutator.Defaults.{mutate_containers-eq-map}
use rcs_ocm_deployer.Webhooks.Mutator.Users.{IsOf, is_excluded_service_account-true_iff}
use rcs_ocm_deployer.Webhooks.Mutator.Patched.{
  lookup-mutate_annotations, handle-eq-panic_iff, handle-eq-patch_iff,
}
use rcs_ocm_deployer.Webhooks.ReadOnly.{writes-handle}
use rcs_ocm_deployer.Tests.Server.{Objects, server}
use rcs_ocm_deployer.Tests.Data.{
  externals, web, config, container, defaults, objects, codec, admission, field_errors, host_checks,
}

collecting : IsCollecting field_errors
collecting = record { also-ne-none = λ errs message paths e. cc }

handle_capp-allowed_iff_example :
    ((handle_capp externals codec field_errors host_checks server web (some web) (fresh objects)).0
      ≡ ok (allowed ""))
    ↔ Admits externals codec field_errors collecting host_checks server web
        (some web)
        objects
        objects.config
handle_capp-allowed_iff_example =
    handle_capp-allowed_iff externals codec field_errors collecting host_checks server web
      (some web) (fresh objects)

mutate_containers-eq-map_example :
    mutate_containers (container ∷ []) defaults ≡ map (fill_container defaults) (container ∷ [])
mutate_containers-eq-map_example = mutate_containers-eq-map defaults (container ∷ [])

abbrev hostname : String
hostname = "web.shop.example"

validate_domain_name-none_iff_example :
    (validate_domain_name externals field_errors host_checks hostname ("internal" ∷ []) ≡ ok none)
    ↔ ((hostname ≡ "") ⊎ IsFree host_checks hostname ("internal" ∷ []))
validate_domain_name-none_iff_example =
    validate_domain_name-none_iff externals field_errors collecting host_checks hostname
      ("internal" ∷ [])

abbrev cluster_web : Capp
cluster_web = record web { spec = record web.spec { site = "cluster-2" } }

abbrev elastic : LogSpec
elastic = record {
  type = "elastic";
  host = "logs.example";
  index = "web";
  user = "writer";
  password_secret = "pull";
}

is_excluded_service_account-true_iff_example :
    (is_excluded_service_account "system:serviceaccount:rcs-deployer-system:controller" ≡ true) ↔ (
      (a : String) × (b : String) × (d : String) × IsOf
        "system:serviceaccount:rcs-deployer-system:controller" a b d)
is_excluded_service_account-true_iff_example =
    is_excluded_service_account-true_iff "system:serviceaccount:rcs-deployer-system:controller"

lookup-mutate_annotations_example :
    lookup_nil last_updated_by_key (mutate_annotations web "dana").annotations ≡ (
      if not (is_excluded_service_account "dana") && last_updated_by_key == last_updated_by_key
      then some "dana"
      else lookup_nil last_updated_by_key web.annotations)
lookup-mutate_annotations_example = lookup-mutate_annotations web "dana" last_updated_by_key

-- a server without an RCSConfig
abbrev unconfigured : Objects
unconfigured = record objects { config = failed (status not_found "not found") }

handle-eq-panic_iff_example :
    ((Mutator.handle codec server admission (fresh unconfigured)).0 ≡ panic) ↔ (
      ((c : Capp) × (codec.decode_raw web ≡ done c))
      × ((e : Error) × (unconfigured.config ≡ failed e)))
handle-eq-panic_iff_example = handle-eq-panic_iff codec server admission (fresh unconfigured)

abbrev mutated : Capp
mutated = mutate web config admission.username

handle-eq-patch_iff_example :
    ((Mutator.handle codec server admission (fresh objects)).0
      ≡ ok (patch_response_from_raw web mutated))
    ↔ ((web ≡ web)
        × ((c : Capp) × (config : RcsConfig) × (codec.decode_raw web ≡ done c)
            × (objects.config ≡ done config)
            × (codec.marshal (mutate c config admission.username) ≡ done mutated)))
handle-eq-patch_iff_example = handle-eq-patch_iff codec server admission (fresh objects) web mutated

writes-handle_example :
    ((Validator.handle externals codec field_errors host_checks server admission
        (fresh objects)).1.writes
      ≡ [])
    × ((Mutator.handle codec server admission (fresh objects)).1.writes ≡ [])
writes-handle_example =
    writes-handle externals codec field_errors host_checks server admission (fresh objects)
