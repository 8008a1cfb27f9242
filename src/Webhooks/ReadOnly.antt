-- ===== src/Webhooks/ReadOnly.antt =====
-- internal/webhooks: the writes of the webhooks.
use rcs_ocm_deployer.Common.{
  String, ◌≡◌, refl, ◌∙◌, ap, Bool, true, false, if◌then◌else◌, Option, some, List, arith,
}
use rcs_ocm_deployer.Api.Workload.{Capp, RcsConfig}
use rcs_ocm_deployer.Runtime.Outcome.{Outcome, ok, err, panic, Reply, done, failed}
use rcs_ocm_deployer.Runtime.Client.{Client, Externals}
use rcs_ocm_deployer.Runtime.Action.{Run, Action, pure, continue}
use rcs_ocm_deployer.Webhooks.Admission.{
  Operation, create, update, other_operation, Codec, Request, Response, denied, errored,
  status_bad_request, FieldErrors, HostChecks,
}
use rcs_ocm_deployer.Webhooks.Common.{is_site_valid, get_rcs_config}
use rcs_ocm_deployer.Webhooks.Validator as Validator
use rcs_ocm_deployer.Webhooks.Validator.{check_hostname, check_site, handle_capp}
use rcs_ocm_deployer.Webhooks.Mutator as Mutator

-- The action writes nothing, wherever it starts.
abbrev IsReading : {W A : Type 0} → Action W A → Type 0
IsReading {W} a = (s : Run W) → (a s).1.writes ≡ s.writes

continue-IsReading :
    {W A B : Type 0} (r : Outcome A × Run W) (f : A → Action W B)
    → ((x : A) → IsReading (f x))
    → (continue r f).1.writes ≡ r.1.writes
continue-IsReading (ok x, s) f h = h x s
continue-IsReading (err e, s) f h = refl
continue-IsReading (panic, s) f h = refl

module _ (E : Externals) (J : Codec) (F : FieldErrors) (H : HostChecks) (C : Client) where
  writes-is_site_valid :
      (c : Capp) (placements : List String) (s : Run C.Cluster)
      → (is_site_valid C c placements s).1.writes ≡ s.writes
  unfolding is_site_valid
  writes-is_site_valid c placements s = ground arith

  run-check_hostname :
      (config : RcsConfig) (c : Capp) (old : Option Capp) (s : Run C.Cluster)
      → (check_hostname E J F H C config c old s).1 ≡ s
  unfolding check_hostname
  run-check_hostname config c old s = ground arith

  writes-checked :
      (config : RcsConfig) (c : Capp) (old : Option Capp) (why : String) (valid : Bool)
      → IsReading (if valid then check_hostname E J F H C config c old else pure (denied why))
  writes-checked config c old why true s =
      ap (λ (r : Run C.Cluster). r.writes) (run-check_hostname config c old s)
  writes-checked config c old why false s = refl

  writes-check_site :
      (config : RcsConfig) (c : Capp) (old : Option Capp)
      → IsReading (check_site E J F H C config c old)
  unfolding check_site
  writes-check_site config c old s =
      continue-IsReading (is_site_valid C c config.spec.placements s) _
        (writes-checked config c old _)
      ∙ writes-is_site_valid c config.spec.placements s

  -- the checks behind the read of the RCSConfig
  writes-configured :
      (c : Capp) (old : Option Capp) (r : Reply RcsConfig)
      → IsReading (elim r as (λ r. Action C.Cluster (Response J)) [
        | failed e ↦ pure (denied "Failed to fetch RCSConfig")
        | done config ↦ check_site E J F H C config c old
      ])
  writes-configured c old (failed e) s = refl
  writes-configured c old (done config) s = writes-check_site config c old s

  writes-handle_capp : (c : Capp) (old : Option Capp) → IsReading (handle_capp E J F H C c old)
  unfolding handle_capp get_rcs_config
  writes-handle_capp c old s = writes-configured c old _ _

  -- the checks behind the decoding
  writes-decoded :
      (object old_object : Reply Capp) (operation : Operation)
      → IsReading (elim object as (λ r. Action C.Cluster (Response J)) [
        | failed e ↦ pure (errored status_bad_request e)
        | done c ↦ elim operation as (λ o. Action C.Cluster (Response J)) [
          | update ↦ elim old_object as (λ r. Action C.Cluster (Response J)) [
            | failed e ↦ pure (errored status_bad_request e)
            | done old ↦ handle_capp E J F H C c (some old)
          ]
          | create ↦ handle_capp E J F H C c (some Validator.zero_capp)
          | other_operation ↦ handle_capp E J F H C c (some Validator.zero_capp)
        ]
      ])
  writes-decoded (failed e) old operation s = refl
  writes-decoded (done c) (done old) update s = writes-handle_capp c (some old) s
  writes-decoded (done c) (failed e) update s = refl
  writes-decoded (done c) old create s = writes-handle_capp c (some Validator.zero_capp) s
  writes-decoded (done c) old other_operation s = writes-handle_capp c (some Validator.zero_capp) s

  writes-validator : (req : Request J) → IsReading (Validator.handle E J F H C req)
  unfolding Validator.handle
  writes-validator req s =
      writes-decoded (J.decode_raw req.object) (J.decode_raw req.old_object) req.operation s

  -- Whatever the client answers, an admission request makes neither webhook write to the cluster.
  pub writes-handle :
      (req : Request J) (s : Run C.Cluster)
      → ((Validator.handle E J F H C req s).1.writes ≡ s.writes)
        × ((Mutator.handle J C req s).1.writes ≡ s.writes)
  unfolding Mutator.handle get_rcs_config
  writes-handle req s = (writes-validator req s, ground arith)
