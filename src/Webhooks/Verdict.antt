-- ===== src/Webhooks/Verdict.antt =====
-- internal/webhooks: the two webhooks one after the other. The API server shows the validating
-- webhook the object that the mutating one has patched.
use rcs_ocm_deployer.Common.{String, ◌≡◌, refl, ◌∙◌, sym, Option, arith}
use rcs_ocm_deployer.Api.Workload.{Capp, LogSpec, RcsConfig}
use rcs_ocm_deployer.Runtime.Outcome.{ok, done}
use rcs_ocm_deployer.Runtime.Client.{Client, Externals}
use rcs_ocm_deployer.Runtime.Action.{Run}
use rcs_ocm_deployer.Webhooks.Admission.{
  Codec, Request, patch_response_from_raw, FieldErrors, HostChecks,
}
use rcs_ocm_deployer.Webhooks.Common.{is_site_valid}
use rcs_ocm_deployer.Webhooks.Validator as Validator
use rcs_ocm_deployer.Webhooks.Validator.{
  hostname_changed, check_log, check_hostname, check_site, handle_capp,
}
use rcs_ocm_deployer.Webhooks.Mutator as Mutator
use rcs_ocm_deployer.Webhooks.Mutator.{mutate_annotations, mutate_resources, mutate}
use rcs_ocm_deployer.Webhooks.Mutator.Patched.{handle-eq-patch_iff}

-- What the validating webhook looks at: the site, the hostname and the log settings.
abbrev pub IsAlike : Capp → Capp → Type 0
IsAlike a b =
    (a.spec.site ≡ b.spec.site)
    × (a.spec.hostname ≡ b.spec.hostname)
    × (a.spec.log_spec ≡ b.spec.log_spec)

-- a Capp with nothing else
abbrev only : String → String → LogSpec → Capp
only site hostname log = record Validator.zero_capp {
  spec = record Validator.zero_capp.spec { site = site; hostname = hostname; log_spec = log };
}

-- the mutating webhook leaves these fields alone
mutated-IsAlike :
    (c d : Capp) (config : RcsConfig) (u : String) → IsAlike d (mutate c config u) → IsAlike d c
unfolding mutate mutate_annotations mutate_resources
mutated-IsAlike c d config u alike = alike

-- Encoding and decoding keeps those fields, which are strings. A map or a list that is empty may
-- come back as nil.
abbrev pub KeepsFields : Codec → Type 0
KeepsFields J =
    (c : Capp) (raw : J.Raw)
    → J.marshal c ≡ done raw
    → (d : Capp) × (J.decode_raw raw ≡ done d) × IsAlike d c

-- the request that the API server sends to the validating webhook after a patch
abbrev pub patched : (J : Codec) → Request J → J.Raw → Request J
patched J req after = record req { object = after }

module _ (E : Externals) (J : Codec) (F : FieldErrors) (H : HostChecks) (C : Client) where
  handle_capp-only :
      (c : Capp) (old : Option Capp) (s : Run C.Cluster)
      → handle_capp E J F H C c old s
        ≡ handle_capp E J F H C (only c.spec.site c.spec.hostname c.spec.log_spec) old s
  unfolding handle_capp check_site check_hostname check_log is_site_valid hostname_changed
  handle_capp-only c old s = refl

  -- the checks depend on nothing else
  handle_capp-alike :
      (c d : Capp) (old : Option Capp) (s : Run C.Cluster)
      → IsAlike d c
      → handle_capp E J F H C d old s ≡ handle_capp E J F H C c old s
  handle_capp-alike c d old s (site, host, log) =
      handle_capp-only d old s ∙ rw (site, host, log) (sym (handle_capp-only c old s))

  decoded_alike :
      (req : Request J) (after : J.Raw) (c d : Capp) (s : Run C.Cluster)
      → J.decode_raw req.object ≡ done c
      → J.decode_raw after ≡ done d
      → IsAlike d c
      → Validator.handle E J F H C (patched J req after) s ≡ Validator.handle E J F H C req s
  unfolding Validator.handle
  decoded_alike req after c d s before behind alike =
      let same : (old : Option Capp)
          → handle_capp E J F H C d old s ≡ handle_capp E J F H C c old s =
        λ old. handle_capp-alike c d old s alike in
      grind (arith, same)

  -- If the mutating webhook answers a patch, the validating webhook answers on the patched object
  -- what it would have answered on the object of the request.
  pub handle-keeps_verdict :
      KeepsFields J
      → (req : Request J) (after : J.Raw) (s t : Run C.Cluster)
      → (Mutator.handle J C req t).0 ≡ ok (patch_response_from_raw req.object after)
      → Validator.handle E J F H C (patched J req after) s ≡ Validator.handle E J F H C req s
  handle-keeps_verdict keeps req after s t h =
      let (same, (c, config, decoded, read, marshalled)) =
        (handle-eq-patch_iff J C req t req.object after).0 h in
      let (d, behind, alike) = keeps _ after marshalled in
      decoded_alike req after c d s decoded behind (mutated-IsAlike c d config req.username alike)
