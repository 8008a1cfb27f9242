-- ===== src/Sync/Directors/Volumes.antt =====
-- internal/sync/directors/volumes.go: the ConfigMaps and Secrets that are
-- collected from a Capp.
pub mod Gather
pub mod Fetch
pub mod References
use rcs_ocm_deployer.Common.{String, ◌<>◌, Option, none, some, List, [], ◌∷◌, ◌++◌}
use rcs_ocm_deployer.Api.Workload.{Capp, Container, EnvFromSource, EnvVar, Volume}
use rcs_ocm_deployer.Api.Work.{Manifest}
use rcs_ocm_deployer.Runtime.Outcome.{Error, errorf, error_text, done, failed}
use rcs_ocm_deployer.Sync.Directors.Base.{Director}
use rcs_ocm_deployer.Runtime.Client.{Client}
use rcs_ocm_deployer.Runtime.Action.{Action, pure, raise, ◌>>=◌}
use rcs_ocm_deployer.Runtime.Calls.{query}
use rcs_ocm_deployer.Sync.Builders.{build_config_map, build_secret}

-- the two slices that the functions below append to
pub record Names : Type 0 where
  pub config_maps : List String
  pub secrets : List String

-- `append(names, r.Name)` if the reference is not nil
abbrev pub add_name : List String → Option String → List String
add_name names none = names
add_name names (some name) = names ++ name ∷ []

abbrev pub add_names : Names → Option String → Option String → Names
add_names n cm s = record {
  config_maps = add_name n.config_maps cm;
  secrets = add_name n.secrets s;
}

-- the inner loop of `gatherConfigEnvFrom`
unfoldable pub env_from_names : List EnvFromSource → Names → Names
env_from_names [] n = n
env_from_names (r ∷ env_from) n =
    env_from_names env_from (add_names n r.config_map_ref r.secret_ref)

-- `gatherConfigEnvFrom`
unfoldable pub gather_config_env_from : List Container → Names → Names
unfolding env_from_names
gather_config_env_from [] n = n
gather_config_env_from (c ∷ containers) n =
    gather_config_env_from containers (env_from_names c.env_from n)

abbrev pub value_from_names : EnvVar → Names → Names
value_from_names r n = elim r.value_from [
  | none ↦ n
  | some v ↦ add_names n v.config_map_key_ref v.secret_key_ref
]

-- the inner loop of `gatherConfigValueFrom`
unfoldable pub env_names : List EnvVar → Names → Names
env_names [] n = n
env_names (r ∷ env) n = env_names env (value_from_names r n)

-- `gatherConfigValueFrom`
unfoldable pub gather_config_value_from : List Container → Names → Names
unfolding env_names
gather_config_value_from [] n = n
gather_config_value_from (c ∷ containers) n =
    gather_config_value_from containers (env_names c.env n)

-- `gatherConfigVolumes`
unfoldable pub gather_config_volumes : List Volume → Names → Names
gather_config_volumes [] n = n
gather_config_volumes (v ∷ volumes) n =
    gather_config_volumes volumes (add_names n v.config_map v.secret)

-- the loop over `ImagePullSecrets`
unfoldable pub add_pull_secrets : List String → Names → Names
add_pull_secrets [] n = n
add_pull_secrets (s ∷ pull_secrets) n =
    add_pull_secrets pull_secrets (record n { secrets = n.secrets ++ s ∷ [] })

-- `getResourceVolumesFromContainerSpec`
unfoldable pub get_resource_volumes : Capp → Names
get_resource_volumes c =
    let pod = c.spec.pod in
    add_pull_secrets pod.image_pull_secrets (
      gather_config_volumes pod.volumes (
        gather_config_value_from pod.containers
          (gather_config_env_from pod.containers (record { config_maps = []; secrets = [] }))))

-- manifests, beside the error with which the loop stopped
pub record Partial : Type 0 where
  pub manifests : List Manifest
  pub error : Option Error

module _ (C : Client) where
  -- the loop of `createConfigMapManifests`, with the manifests so far
  unfoldable pub config_map_loop : List String → String → List Manifest → Action C.Cluster Partial
  unfolding error_text
  config_map_loop [] ns manifests = pure (record { manifests = manifests; error = none })
  config_map_loop (name ∷ config_maps) ns manifests = do
    got ← query (C.get_config_map (record { name = name; namespace = ns }))
    elim got [
      | failed e ↦ pure (record {
        manifests = manifests;
        error = some (errorf ("unable to fetch ConfigMap from Capp spec: " <> error_text e));
      })
      | done cm ↦ config_map_loop config_maps ns (manifests ++ build_config_map cm ∷ [])
    ]

  -- `createConfigMapManifests`
  unfoldable pub create_config_map_manifests : List String → String → Action C.Cluster Partial
  unfolding config_map_loop
  create_config_map_manifests config_maps ns = config_map_loop config_maps ns []

  -- the loop of `createSecretManifests`, with the manifests so far
  unfoldable pub secret_loop : List String → String → List Manifest → Action C.Cluster Partial
  unfolding error_text
  secret_loop [] ns manifests = pure (record { manifests = manifests; error = none })
  secret_loop (name ∷ secrets) ns manifests = do
    got ← query (C.get_secret (record { name = name; namespace = ns }))
    elim got [
      | failed e ↦ pure (record {
        manifests = manifests;
        error = some (errorf ("unable to fetch Secret from Capp spec: " <> error_text e));
      })
      | done s ↦ secret_loop secrets ns (manifests ++ build_secret s ∷ [])
    ]

  -- `createSecretManifests`
  unfoldable pub create_secret_manifests : List String → String → Action C.Cluster Partial
  unfolding secret_loop
  create_secret_manifests secrets ns = secret_loop secrets ns []

  -- `VolumesDirector.AssembleManifests`. Its caller drops the manifests that come with an error.
  unfoldable pub assemble_manifests : Director C
  assemble_manifests c = do
    let names = get_resource_volumes c
    config_maps ← create_config_map_manifests names.config_maps c.namespace
    elim config_maps.error [
      | some e ↦ raise e
      | none ↦ do
        secrets ← create_secret_manifests names.secrets c.namespace
        elim secrets.error [
          | some e ↦ raise e
          | none ↦ pure (config_maps.manifests ++ secrets.manifests)
        ]
    ]
