-- ===== src/Tests/AdmittedRuns.antt =====
-- The theorem on the validating webhook and the placement controller at concrete values.
use rcs_ocm_deployer.Common.{◌≡◌, ◌≢◌, refl, none, [], ◌∷◌, arith, eq_iff}
use rcs_ocm_deployer.Api.Workload.{Capp}
use rcs_ocm_deployer.Runtime.Outcome.{ok}
use rcs_ocm_deployer.Runtime.Action.{fresh}
use rcs_ocm_deployer.Placement.Controller.{reconcile}
use rcs_ocm_deployer.Webhooks.Admission.{allowed}
use rcs_ocm_deployer.Webhooks.Common.{is_site_valid}
use rcs_ocm_deployer.Webhooks.Domain.{
  validate_domain_name, add_patterns, is_domain_name_taken, add_taken, add_cluster_local,
  add_not_qualified,
}
use rcs_ocm_deployer.Webhooks.Domain.Accepted.{IsCollecting}
use rcs_ocm_deployer.Webhooks.Validator.{
  handle_capp, check_site, check_hostname, check_log, hostname_changed,
}
use rcs_ocm_deployer.System.Admitted.{PlacesOn, IsManaged, admitted-PlacesOn}
use rcs_ocm_deployer.Tests.Server.{Objects, server, server-IsQuiet}
use rcs_ocm_deployer.Tests.Data.{
  externals, request, web, config, objects, codec, field_errors, host_checks,
}

-- the Capp asks for a cluster
abbrev on_cluster_2 : Capp
on_cluster_2 = record web { spec = record web.spec { site = "cluster-2" } }

abbrev with_site : Objects
with_site = record objects { capps = on_cluster_2 ∷ [] }

collecting : IsCollecting field_errors
collecting = record { also-ne-none = λ errs message paths e. cc }

named : on_cluster_2.spec.site ≢ ""
named = ground (arith, eq_iff on_cluster_2.spec.site "")

admitted :
    (handle_capp externals codec field_errors host_checks server on_cluster_2 none
      (fresh with_site)).0
    ≡ ok (allowed "")
unfolding handle_capp check_site check_hostname check_log is_site_valid hostname_changed
    validate_domain_name add_patterns is_domain_name_taken add_taken add_cluster_local
    add_not_qualified
admitted = refl

admitted-PlacesOn_example :
    IsManaged server with_site on_cluster_2.spec.site
    × PlacesOn on_cluster_2 on_cluster_2.spec.site
        (reconcile externals server request (fresh with_site)).1.writes
admitted-PlacesOn_example =
    admitted-PlacesOn server externals codec field_errors collecting host_checks server-IsQuiet
      config on_cluster_2 none request with_site refl refl named refl admitted
