-- ===== src/Sync/Directors/Auth.antt =====
-- internal/sync/directors/auth.go: who may read the logs of a Capp.
pub mod Readers
use rcs_ocm_deployer.Common.{String, ◌<>◌, not, ◌&&◌, List, [], ◌∷◌, ◌++◌, ◌==◌, if◌then◌else◌}
use rcs_ocm_deployer.Api.Workload.{Capp}
use rcs_ocm_deployer.Api.Work.{Manifest, Subject, RoleBinding}
use rcs_ocm_deployer.Runtime.Outcome.{errorf, error_text, done, failed}
use rcs_ocm_deployer.Sync.Directors.Base.{Director}
use rcs_ocm_deployer.Runtime.Client.{Client}
use rcs_ocm_deployer.Runtime.Action.{Action, pure, raise, ◌>>=◌}
use rcs_ocm_deployer.Runtime.Calls.{query}
use rcs_ocm_deployer.Sync.Builders.{build_role, build_role_binding}

abbrev pub user_subject : String → Subject
user_subject user = record { name = user; kind = "User"; api_group = "rbac.authorization.k8s.io" }

-- the loop of `generateSubjectsFromUsers`, with the subjects so far
unfoldable pub subjects_loop : List String → List Subject → List Subject
subjects_loop [] subjects = subjects
subjects_loop (user ∷ users) subjects = subjects_loop users (subjects ++ user_subject user ∷ [])

-- `generateSubjectsFromUsers`
unfoldable pub generate_subjects_from_users : List String → List Subject
unfolding subjects_loop
generate_subjects_from_users users = subjects_loop users []

-- the loop over the subjects of one RoleBinding
unfoldable pub subject_names : List Subject → List String → List String
subject_names [] users = users
subject_names (user ∷ subjects) users = subject_names subjects (users ++ user.name ∷ [])

-- the loop over the RoleBindings, with the users so far
unfoldable pub users_loop : List RoleBinding → List String → List String
unfolding subject_names
users_loop [] users = users
users_loop (rb ∷ items) users = users_loop items (
    if not (rb.role_ref.name == "admin") && not (rb.role_ref.name == "logs-reader")
    then users
    else subject_names rb.subjects users)

module _ (C : Client) where
  -- `getUsersfromNamespace`
  unfoldable pub get_users_from_namespace : Capp → Action C.Cluster (List String)
  unfolding users_loop error_text
  get_users_from_namespace c = do
    listed ← query (C.list_role_bindings c.namespace)
    elim listed [
      | failed e ↦ raise (errorf ("failed to list roleBindings in the namespace: " <> error_text e))
      | done items ↦ pure (users_loop items [])
    ]

  -- `AuthDirector.AssembleManifests`
  unfoldable pub assemble_manifests : Director C
  assemble_manifests c = do
    users ← get_users_from_namespace c
    pure (
        build_role c.name c.namespace
        ∷ build_role_binding c.name c.namespace (generate_subjects_from_users users)
        ∷ [])
