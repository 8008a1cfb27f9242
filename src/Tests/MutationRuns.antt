-- ===== src/Tests/MutationRuns.antt =====
-- The theorems on what follows a mutation by the webhook at concrete inputs.
use rcs_ocm_deployer.Common.{◌≡◌, refl}
use rcs_ocm_deployer.Runtime.Outcome.{ok}
use rcs_ocm_deployer.Api.Workload.{Capp}
use rcs_ocm_deployer.Runtime.Action.{fresh}
use rcs_ocm_deployer.Webhooks.Admission.{patch_response_from_raw}
use rcs_ocm_deployer.Webhooks.Common.{get_rcs_config}
use rcs_ocm_deployer.Webhooks.Mutator as Mutator
use rcs_ocm_deployer.Webhooks.Mutator.{mutate}
use rcs_ocm_deployer.Webhooks.Mutator.Again.{mutate_twice}
use rcs_ocm_deployer.Webhooks.Validator as Validator
use rcs_ocm_deployer.Webhooks.Verdict.{KeepsFields, patched, handle-keeps_verdict}
use rcs_ocm_deployer.Tests.Server.{server}
use rcs_ocm_deployer.Tests.Data.{
  externals, web, config, objects, codec, admission, field_errors, host_checks,
}

mutate_twice_example : mutate (mutate web config "dana") config "dana" ≡ mutate web config "dana"
mutate_twice_example = mutate_twice web config "dana"

keeps_fields : KeepsFields codec
keeps_fields c raw e = let same : raw ≡ c = cc in (raw, refl, rw same (refl, refl, refl))

abbrev mutated : Capp
mutated = mutate web config admission.username

patch :
    (Mutator.handle codec server admission (fresh objects)).0
    ≡ ok (patch_response_from_raw web mutated)
unfolding Mutator.handle get_rcs_config
patch = refl

handle-keeps_verdict_example :
    Validator.handle externals codec field_errors host_checks server
      (patched codec admission mutated)
      (fresh objects)
    ≡ Validator.handle externals codec field_errors host_checks server admission (fresh objects)
handle-keeps_verdict_example =
    handle-keeps_verdict externals codec field_errors host_checks server keeps_fields admission
      mutated (fresh objects) (fresh objects) patch
