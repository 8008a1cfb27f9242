-- ===== src/Webhooks/Validator/Allowed.antt =====
-- When the validator admits a Capp.
use rcs_ocm_deployer.Common.{
  String, ◌≡◌, ◌≢◌, ◌↔◌, ◌⊎◌, refl, Bool, true, false, Option, arith, if◌then◌else◌,
}
use rcs_ocm_deployer.Utils.{rcs_config_name, rcs_config_namespace}
use rcs_ocm_deployer.Api.Meta.{NamespacedName}
use rcs_ocm_deployer.Api.Workload.{Capp, LogSpec, RcsConfig}
use rcs_ocm_deployer.Runtime.Outcome.{Outcome, ok, err, panic, Reply, done, failed}
use rcs_ocm_deployer.Runtime.Client.{Client, Externals}
use rcs_ocm_deployer.Runtime.Action.{Action, Run, pure, continue}
use rcs_ocm_deployer.Webhooks.Admission.{Codec, Response, allowed, denied, FieldErrors, HostChecks}
use rcs_ocm_deployer.Webhooks.Common.{is_site_valid}
use rcs_ocm_deployer.Webhooks.Common.Logs.{validate_log_spec-eq-none_iff}
use rcs_ocm_deployer.Webhooks.Common.Sites.{IsSite, is_site_valid-true_iff}
use rcs_ocm_deployer.Webhooks.Domain.Accepted.{IsCollecting, IsFree, validate_domain_name-none_iff}
use rcs_ocm_deployer.Webhooks.Validator.{
  is_zero_log, hostname_changed, patterns_of, check_log, check_hostname, check_site, handle_capp,
}

-- The log settings are all empty, or of type `elastic` with all four fields.
abbrev pub IsLogged : LogSpec → Type 0
IsLogged l =
    (is_zero_log l ≡ true)
    ⊎ ((l.type ≡ "elastic")
        × (l.host ≢ "")
        × (l.index ≢ "")
        × (l.user ≢ "")
        × (l.password_secret ≢ ""))

-- The hostname is the one that is there already, or it is empty or free.
abbrev pub IsHosted : HostChecks → RcsConfig → Capp → Option Capp → Type 0
IsHosted H config c old =
    (hostname_changed c old ≡ false)
    ⊎ ((c.spec.hostname ≡ "") ⊎ IsFree H c.spec.hostname (patterns_of config))

module _ (E : Externals) (J : Codec) (F : FieldErrors) (L : IsCollecting F) (H : HostChecks)
    (C : Client) (c : Capp) where
  check_log-allowed : (check_log E J F H C c ≡ allowed "") ↔ IsLogged c.spec.log_spec
  unfolding check_log
  check_log-allowed = ground (arith, validate_log_spec-eq-none_iff E F c.spec.log_spec)

  check_hostname-allowed :
      (config : RcsConfig) (old : Option Capp) (s : Run C.Cluster)
      → ((check_hostname E J F H C config c old s).0 ≡ ok (allowed "")) ↔ (
          ((hostname_changed c old ≡ false)
            ⊎ ((c.spec.hostname ≡ "") ⊎ IsFree H c.spec.hostname (patterns_of config)))
          × IsLogged c.spec.log_spec)
  unfolding check_hostname
  check_hostname-allowed config old s = ground (
    arith,
    check_log-allowed,
    validate_domain_name-none_iff E F L H c.spec.hostname (patterns_of config),
  )

  -- the check of the site, in front of the rest
  site_then :
      (r : Outcome Bool × Run C.Cluster) (rest : Action C.Cluster (Response J)) (why : String)
      → (P : Type 0) → ((s : Run C.Cluster) → ((rest s).0 ≡ ok (allowed "")) ↔ P)
      → ((continue r (λ valid. if valid then rest else pure (denied why))).0 ≡ ok (allowed ""))
        ↔ ((r.0 ≡ ok true) × P)
  site_then (ok true, s) rest why P h = (λ e. (refl, (h s).0 e), λ (_, p). (h s).1 p)
  site_then (ok false, s) rest why P h = ground arith
  site_then (err e, s) rest why P h = ground arith
  site_then (panic, s) rest why P h = ground arith

  check_site-allowed :
      (config : RcsConfig) (old : Option Capp) (s : Run C.Cluster)
      → ((check_site E J F H C config c old s).0 ≡ ok (allowed "")) ↔ (
          IsSite C s.cluster config.spec.placements c.spec.site
          × IsHosted H config c old
          × IsLogged c.spec.log_spec)
  unfolding check_site
  check_site-allowed config old s =
      let (to, from) =
        site_then (is_site_valid C c config.spec.placements s)
          (check_hostname E J F H C config c old) _ _ (check_hostname-allowed config old) in
      let (site_to, site_from) = is_site_valid-true_iff C c config.spec.placements s in
      (
        λ e. let (valid, (hosted, logged)) = to e in (site_to valid, hosted, logged),
        λ (site, hosted, logged). from (site_from site, (hosted, logged)),
      )

  abbrev pub config_key : NamespacedName
  config_key = record { name = rcs_config_name; namespace = rcs_config_namespace }

  -- the RCSConfig that was read, with what the checks ask for it
  abbrev pub Admits : Option Capp → C.Cluster → Reply RcsConfig → Type 0
  Admits old w r =
      (config : RcsConfig) × (r ≡ done config)
      × IsSite C w config.spec.placements c.spec.site
      × IsHosted H config c old
      × IsLogged c.spec.log_spec

  done_inj : (a b : RcsConfig) → done a ≡ done b → a ≡ b
  done_inj a b e = cc

  allowed_by :
      (old : Option Capp) (s : Run C.Cluster) (r : Reply RcsConfig)
      → (C.get_config config_key s.cluster).0 ≡ r
      → ((handle_capp E J F H C c old s).0 ≡ ok (allowed ""))
        ↔ Admits old (C.get_config config_key s.cluster).1 r
  unfolding handle_capp
  allowed_by old s (failed e) h = rw h (ground arith)
  allowed_by old s (done config) h =
      let (to, from) = check_site-allowed config old _ in
      rw h (
        λ e. let (site, hosted, logged) = to e in (config, refl, site, hosted, logged),
        λ (config', same, site, hosted, logged).
            let eq = done_inj config config' same in from (rw eq site, rw eq hosted, logged),
      )

  -- The validator admits a Capp exactly when the RCSConfig can be read, the site is empty, a
  -- placement or a listed cluster, the hostname is unchanged, empty or free, and the log settings
  -- are empty or complete.
  pub handle_capp-allowed_iff :
      (old : Option Capp) (s : Run C.Cluster)
      → let got = C.get_config config_key s.cluster in
        ((handle_capp E J F H C c old s).0 ≡ ok (allowed "")) ↔ Admits old got.1 got.0
  handle_capp-allowed_iff old s = allowed_by old s _ refl
