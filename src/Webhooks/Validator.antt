-- ===== src/Webhooks/Validator.antt =====
-- internal/webhooks/validator.go
pub mod Allowed
use rcs_ocm_deployer.Common.{
  String, ◌<>◌, Bool, not, ◌&&◌, Option, none, some, List, [], ◌==◌, if◌then◌else◌,
}
use rcs_ocm_deployer.Api.Meta.{zero_meta, zero_type}
use rcs_ocm_deployer.Api.Workload.{Capp, LogSpec, zero_log, RcsConfig}
use rcs_ocm_deployer.Runtime.Outcome.{ok, err, panic, done, failed}
use rcs_ocm_deployer.Runtime.Client.{Client, Externals}
use rcs_ocm_deployer.Runtime.Action.{Action, pure, raise, abort, ◌>>=◌}
use rcs_ocm_deployer.Webhooks.Admission.{
  create, update, other_operation, Codec, Request, Response, allowed, denied, errored,
  status_bad_request, FieldErrors, HostChecks,
}
use rcs_ocm_deployer.Webhooks.Common.{is_site_valid, get_rcs_config, validate_log_spec}
use rcs_ocm_deployer.Webhooks.Domain.{validate_domain_name}

-- `cappv1alpha1.Capp{}`
abbrev pub zero_capp : Capp
zero_capp = record {
  type_meta = zero_type;
  metadata = zero_meta;
  spec = record {
    site = "";
    hostname = "";
    tls_secret = "";
    pod = record { init_containers = []; containers = []; volumes = []; image_pull_secrets = [] };
    log_spec = zero_log;
  };
  status_site = "";
}

-- `logSpec == (cappv1alpha1.LogSpec{})`
abbrev pub is_zero_log : LogSpec → Bool
is_zero_log l =
    l.type == "" && (l.host == "" && (l.index == "" && (l.user == "" && l.password_secret == "")))

-- `oldCapp == nil || capp.Spec.RouteSpec.Hostname != oldCapp.Spec.RouteSpec.Hostname`
unfoldable pub hostname_changed : Capp → Option Capp → Bool
hostname_changed c none = Bool.true
hostname_changed c (some old) = not (c.spec.hostname == old.spec.hostname)

-- `invalidHostnamePatterns` of `handle`
abbrev pub patterns_of : RcsConfig → List String
patterns_of config = elim config.spec.invalid_hostname_patterns [ none ↦ [] | some ps ↦ ps ]

module _ (E : Externals) (J : Codec) (F : FieldErrors) (H : HostChecks) (C : Client) where
  -- the check of the log settings, and the end of `handle`
  unfoldable pub check_log : Capp → Response J
  check_log c =
      if is_zero_log c.spec.log_spec
      then allowed ""
      else elim (validate_log_spec E F c.spec.log_spec) [
        | none ↦ allowed ""
        | some errs ↦ denied (F.text errs)
      ]

  -- `handle` behind the check of the site
  unfoldable pub check_hostname : RcsConfig → Capp → Option Capp → Action C.Cluster (Response J)
  check_hostname config c old =
      if hostname_changed c old
      then elim (validate_domain_name E F H c.spec.hostname (patterns_of config)) [
        | ok none ↦ pure (check_log c)
        | ok (some errs) ↦ pure (denied (F.text errs))
        | err e ↦ raise e
        | panic ↦ abort
      ]
      else pure (check_log c)

  -- `handle` behind the read of the RCSConfig
  unfoldable pub check_site : RcsConfig → Capp → Option Capp → Action C.Cluster (Response J)
  check_site config c old = do
    valid ← is_site_valid C c config.spec.placements
    if valid
        then check_hostname config c old
        else pure (
            denied (
              "this site "
              <> (c.spec.site
                  <> " is unsupported. Site field accepts either cluster name or placement name")))

  -- `CappValidator.handle`
  unfoldable pub handle_capp : Capp → Option Capp → Action C.Cluster (Response J)
  unfolding get_rcs_config
  handle_capp c old = do
    config_read ← get_rcs_config C
    elim config_read [
      | failed e ↦ pure (denied "Failed to fetch RCSConfig")
      | done config ↦ check_site config c old
    ]

  -- `CappValidator.Handle`: the old object is the zero Capp unless the operation is an update
  unfoldable pub handle : Request J → Action C.Cluster (Response J)
  handle req = elim (J.decode_raw req.object) [
    | failed e ↦ pure (errored status_bad_request e)
    | done c ↦ elim req.operation [
      | update ↦ elim (J.decode_raw req.old_object) [
        | failed e ↦ pure (errored status_bad_request e)
        | done old ↦ handle_capp c (some old)
      ]
      | create ↦ handle_capp c (some zero_capp)
      | other_operation ↦ handle_capp c (some zero_capp)
    ]
  ]
