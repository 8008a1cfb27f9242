-- ===== src/Sync/Directors.antt =====
-- internal/sync/directors: the list of manifests that deploys a Capp.
pub mod Base
pub mod Volumes
pub mod Auth
pub mod Reads
pub mod Assembly
pub mod Labels
pub mod Carried
use rcs_ocm_deployer.Common.{List, [], ◌∷◌, ◌++◌}
use rcs_ocm_deployer.Api.Workload.{Capp}
use rcs_ocm_deployer.Api.Work.{Manifest}
use rcs_ocm_deployer.Runtime.Outcome.{error_text, done, failed}
use rcs_ocm_deployer.Runtime.Client.{Client, Externals}
use rcs_ocm_deployer.Runtime.Action.{Action, pure, raise, attempt, ◌>>=◌, ◌>>◌, warning}
use rcs_ocm_deployer.Runtime.Calls.{record_event}
use rcs_ocm_deployer.Sync.Directors.Base.{Director}
use rcs_ocm_deployer.Utils.{event_volume_not_found, event_auth_failed}
use rcs_ocm_deployer.Sync.Builders.{build_capp, build_namespace}
use rcs_ocm_deployer.Sync.Directors.Volumes
use rcs_ocm_deployer.Sync.Directors.Auth

module _ (E : Externals) (C : Client) where
  -- `CappDirector.AssembleManifests`
  unfoldable pub assemble_manifests : Director C
  unfolding error_text
  assemble_manifests c = do
    volumes ← attempt (Volumes.assemble_manifests C c)
    elim volumes [
      | failed e ↦ do record_event warning event_volume_not_found (error_text e); raise e
      | done volumes_manifests ↦ do
        auth ← attempt (Auth.assemble_manifests C c)
        elim auth [
          | failed e ↦ do record_event warning event_auth_failed (error_text e); raise e
          | done auth_manifests ↦ pure (
              (build_capp E c ∷ build_namespace E c.namespace ∷ [])
              ++ (volumes_manifests ++ auth_manifests))
        ]
    ]
