-- ===== src/Webhooks/Common.antt =====
-- internal/webhooks/common.go, but for the check of a hostname: sites, log settings, the RCSConfig.
pub mod Logs
pub mod Sites
use rcs_ocm_deployer.Common.{
  String, ◌<>◌, Bool, true, ◌||◌, Option, none, some, List, [], ◌∷◌, ◌++◌, ◌==◌, contains,
  if◌then◌else◌,
}
use rcs_ocm_deployer.Common.Dict.{Dict, lookup}
use rcs_ocm_deployer.Common.Texts.{join}
use rcs_ocm_deployer.Api.Workload.{Capp, LogSpec, RcsConfig}
use rcs_ocm_deployer.Runtime.Outcome.{Reply, done, failed}
use rcs_ocm_deployer.Runtime.Client.{Client, Externals}
use rcs_ocm_deployer.Runtime.Action.{Action, pure, ◌>>=◌}
use rcs_ocm_deployer.Runtime.Calls.{query}
use rcs_ocm_deployer.Utils.{rcs_config_name, rcs_config_namespace}
use rcs_ocm_deployer.Webhooks.Admission.{FieldErrors}

-- the loop of `getManagedClusters`, with the names so far
unfoldable pub cluster_names_loop : List String → List String → List String
cluster_names_loop [] cluster_names = cluster_names
cluster_names_loop (name ∷ items) cluster_names =
    cluster_names_loop items (cluster_names ++ name ∷ [])

module _ (C : Client) where
  -- `getManagedClusters`
  unfoldable pub get_managed_clusters : Action C.Cluster (Reply (List String))
  unfolding cluster_names_loop
  get_managed_clusters = do
    listed ← query C.list_managed_clusters
    elim listed [
      | failed e ↦ pure (failed e)
      | done items ↦ pure (done (cluster_names_loop items []))
    ]

  -- the slice of `clusters, _ := getManagedClusters(…)`, nil beside an error
  abbrev clusters_or_nil : Reply (List String) → List String
  clusters_or_nil (failed e) = []
  clusters_or_nil (done clusters) = clusters

  -- `isSiteValid`
  unfoldable pub is_site_valid : Capp → List String → Action C.Cluster Bool
  unfolding get_managed_clusters
  is_site_valid c placements = if c.spec.site == "" then pure true else do
    clusters ← get_managed_clusters
    pure (contains (clusters_or_nil clusters) c.spec.site || contains placements c.spec.site)

  -- `getRCSConfig`: the pointer is nil beside an error
  unfoldable pub get_rcs_config : Action C.Cluster (Reply RcsConfig)
  get_rcs_config =
      query (C.get_config (record { name = rcs_config_name; namespace = rcs_config_namespace }))

-- `requiredFields`, a map with one key
abbrev pub required_fields : Dict (List String)
required_fields = ("elastic", "Host" ∷ "Index" ∷ "User" ∷ "PasswordSecret" ∷ []) ∷ []

-- the keys of `requiredFields`
abbrev pub valid_types : List String
valid_types = "elastic" ∷ []

-- `fieldValues`
abbrev pub field_values : LogSpec → Dict String
field_values l =
    ("Host", l.host)
    ∷ ("Index", l.index)
    ∷ ("User", l.user)
    ∷ ("PasswordSecret", l.password_secret)
    ∷ []

-- `!ok || value == ""`
abbrev pub is_missing : Option String → Bool
is_missing none = true
is_missing (some value) = value == ""

-- the loop of `findMissingFields`, with the fields so far
unfoldable pub missing_loop : LogSpec → List String → List String → List String
unfolding lookup
missing_loop l [] missing_fields = missing_fields
missing_loop l (field ∷ required) missing_fields = missing_loop l required (
    if is_missing (lookup field (field_values l))
    then missing_fields ++ field ∷ []
    else missing_fields)

-- `findMissingFields`
unfoldable pub find_missing_fields : LogSpec → List String → List String
unfolding missing_loop
find_missing_fields l required = missing_loop l required []

module _ (E : Externals) (F : FieldErrors) where
  abbrev missing_error : LogSpec → List String → Option F.FieldError
  missing_error l [] = none
  missing_error l (field ∷ fields) = some (
      F.err_generic
        (l.type
          <> (" log configuration is missing required fields: "
              <> E.quote (join (field ∷ fields) ", ")))
        ("logSpec" ∷ []))

  -- `validateLogSpec`
  unfoldable pub validate_log_spec : LogSpec → Option F.FieldError
  unfolding lookup find_missing_fields join
  validate_log_spec l = elim (lookup l.type required_fields) [
    | none ↦ some (
        F.err_generic
          ("Invalid LogSpec Type: "
            <> (E.quote l.type <> (". Valid types are: " <> E.quote (join valid_types ", "))))
          ("logSpec.Type" ∷ []))
    | some required ↦ missing_error l (find_missing_fields l required)
  ]
