-- ===== src/Sync/Directors/Labels.antt =====
-- The label of the deployer on the manifests, for every client.
use rcs_ocm_deployer.Common.{
  String, ◌≡◌, refl, some, Option, none, List, [], ◌∷◌, ◌++◌, All, All-append,
}
use rcs_ocm_deployer.Common.Dict.{Dict, lookup, lookup_nil, lookup-insert}
use rcs_ocm_deployer.Api.Meta.{ObjectMeta}
use rcs_ocm_deployer.Api.Workload.{Capp}
use rcs_ocm_deployer.Api.Work.{
  Manifest, capp, namespace, config_map, secret, role, role_binding, ConfigMap, Secret,
}
use rcs_ocm_deployer.Runtime.Client.{Client, Externals}
use rcs_ocm_deployer.Runtime.Action.{
  Run, Action, pure, raise, continue, caught, attempt, warning, ◌>>=◌, ◌>>◌,
}
use rcs_ocm_deployer.Runtime.Calls.{record_event}
use rcs_ocm_deployer.Runtime.Outcome.{
  Outcome, ok, err, panic, Error, error_text, Reply, done, failed,
}
use rcs_ocm_deployer.Utils.{
  managed_by_label_key, managed_by_label_value, event_volume_not_found, event_auth_failed,
}
use rcs_ocm_deployer.Sync.Builders.{
  capp_labels, build_capp, build_namespace, build_config_map, build_secret, build_role,
  build_role_binding,
}
use rcs_ocm_deployer.Sync.Directors.{assemble_manifests}
use rcs_ocm_deployer.Sync.Directors.Auth
use rcs_ocm_deployer.Sync.Directors.Volumes
use rcs_ocm_deployer.Sync.Directors.Volumes.Fetch.{round}
use rcs_ocm_deployer.Sync.Directors.Volumes.{
  Partial, config_map_loop, create_config_map_manifests, secret_loop, create_secret_manifests,
  get_resource_volumes,
}

abbrev pub meta_of : Manifest → ObjectMeta
meta_of (capp c) = c.metadata
meta_of (namespace n) = n.metadata
meta_of (config_map m) = m.metadata
meta_of (secret s) = s.metadata
meta_of (role r) = r.metadata
meta_of (role_binding b) = b.metadata

-- The manifest has the label of the deployer.
abbrev pub IsManaged : Manifest → Type 0
IsManaged m = lookup_nil managed_by_label_key (meta_of m).labels ≡ some managed_by_label_value

lookup-capp_labels :
    (o : Option (Dict String))
    → lookup managed_by_label_key (capp_labels o) ≡ some managed_by_label_value
unfolding capp_labels
lookup-capp_labels none = simp (lookup-insert)
lookup-capp_labels (some labels) = simp (lookup-insert)

build_capp-IsManaged : (E : Externals) (c : Capp) → IsManaged (build_capp E c)
unfolding build_capp
build_capp-IsManaged E c = lookup-capp_labels c.labels

build_config_map-IsManaged : (m : ConfigMap) → IsManaged (build_config_map m)
unfolding build_config_map lookup
build_config_map-IsManaged m = refl

build_secret-IsManaged : (s : Secret) → IsManaged (build_secret s)
unfolding build_secret lookup
build_secret-IsManaged s = refl

-- the manifests of a partial result, if there is one
abbrev IsPartial : {W : Type 0} → Outcome Partial × Run W → Type 0
IsPartial (ok p, s) = All IsManaged p.manifests
IsPartial _ = Unit

round-IsPartial :
    {W A : Type 0} (text : String) (build : A → Manifest) (get : W → Reply A × W)
    (more : List Manifest → Action W Partial) (acc : List Manifest) (s : Run W)
    → ((x : A) → IsManaged (build x))
    → All IsManaged acc
    → ((acc : List Manifest) (s : Run W) → All IsManaged acc → IsPartial (more acc s))
    → (r : Reply A) → (get s.cluster).0 ≡ r
    → IsPartial (round text build get more acc s)
round-IsPartial text build get more acc s managed all ih (failed e) h = rw h all
round-IsPartial text build get more acc s managed all ih (done x) h =
    rw h (ih _ _ (All-append IsManaged acc (build x ∷ []) all (managed x, tt)))

-- a list of manifests, if the outcome is one
abbrev pub IsLabelled : Outcome (List Manifest) → Type 0
IsLabelled (ok ms) = All IsManaged ms
IsLabelled _ = Unit

after_partial :
    {W : Type 0} (r : Outcome Partial × Run W) (f : Partial → Action W (List Manifest))
    → IsPartial r
    → ((p : Partial) (s : Run W) → All IsManaged p.manifests → IsLabelled (f p s).0)
    → IsLabelled (continue r f).0
after_partial (ok p, s) f h k = k p s h
after_partial (err e, s) f h k = tt
after_partial (panic, s) f h k = tt

-- the manifests of an attempt, if it gave them
abbrev IsTried : Reply (List Manifest) → Type 0
IsTried (done ms) = All IsManaged ms
IsTried (failed e) = Unit

after_attempt :
    {W : Type 0} (r : Outcome (List Manifest) × Run W)
    (f : Reply (List Manifest) → Action W (List Manifest))
    → IsLabelled r.0
    → ((t : Reply (List Manifest)) (s : Run W) → IsTried t → IsLabelled (f t s).0)
    → IsLabelled (continue (caught r) f).0
after_attempt (ok ms, s) f h k = k (done ms) s h
after_attempt (err e, s) f h k = k (failed e) s tt
after_attempt (panic, s) f h k = tt

module _ (C : Client) where
  config_map_loop-IsPartial :
      (names : List String) (ns : String) (acc : List Manifest) (s : Run C.Cluster)
      → All IsManaged acc
      → IsPartial (config_map_loop C names ns acc s)
  unfolding config_map_loop
  config_map_loop-IsPartial [] ns acc s all = all
  config_map_loop-IsPartial (n ∷ names) ns acc s all =
      round-IsPartial "unable to fetch ConfigMap from Capp spec: " build_config_map
        (C.get_config_map (record { name = n; namespace = ns })) (config_map_loop C names ns) acc s
        build_config_map-IsManaged all (config_map_loop-IsPartial names ns) _ refl

  secret_loop-IsPartial :
      (names : List String) (ns : String) (acc : List Manifest) (s : Run C.Cluster)
      → All IsManaged acc
      → IsPartial (secret_loop C names ns acc s)
  unfolding secret_loop
  secret_loop-IsPartial [] ns acc s all = all
  secret_loop-IsPartial (n ∷ names) ns acc s all =
      round-IsPartial "unable to fetch Secret from Capp spec: " build_secret
        (C.get_secret (record { name = n; namespace = ns })) (secret_loop C names ns) acc s
        build_secret-IsManaged all (secret_loop-IsPartial names ns) _ refl

  config_maps-IsPartial :
      (names : List String) (ns : String) (s : Run C.Cluster)
      → IsPartial (create_config_map_manifests C names ns s)
  unfolding create_config_map_manifests
  config_maps-IsPartial names ns s = config_map_loop-IsPartial names ns [] s tt

  secrets-IsPartial :
      (names : List String) (ns : String) (s : Run C.Cluster)
      → IsPartial (create_secret_manifests C names ns s)
  unfolding create_secret_manifests
  secrets-IsPartial names ns s = secret_loop-IsPartial names ns [] s tt

  -- the Secrets behind the ConfigMaps, and the end
  end_of_volumes :
      (cms : Partial) (o : Option Error) (secrets : Partial) (s : Run C.Cluster)
      → All IsManaged cms.manifests
      → All IsManaged secrets.manifests
      → IsLabelled
          ((elim o as (λ o. Action C.Cluster (List Manifest)) [
            | none ↦ pure (cms.manifests ++ secrets.manifests)
            | some e ↦ raise e
          ])
            s).0
  end_of_volumes cms none secrets s h k = All-append IsManaged cms.manifests _ h k
  end_of_volumes cms (some e) secrets s h k = tt

  secrets_behind :
      (c : Capp) (cms : Partial) (o : Option Error) (s : Run C.Cluster)
      → All IsManaged cms.manifests
      → IsLabelled
          ((elim o as (λ o. Action C.Cluster (List Manifest)) [
            | none ↦ do
              secrets ← create_secret_manifests C (get_resource_volumes c).secrets c.namespace
              elim secrets.error [
                | none ↦ pure (cms.manifests ++ secrets.manifests)
                | some e ↦ raise e
              ]
            | some e ↦ raise e
          ])
            s).0
  secrets_behind c cms none s h =
      after_partial _ _ (secrets-IsPartial (get_resource_volumes c).secrets c.namespace s)
        (λ secrets s'. end_of_volumes cms secrets.error secrets s' h)
  secrets_behind c cms (some e) s h = tt

  volumes-IsLabelled :
      (c : Capp) (s : Run C.Cluster) → IsLabelled (Volumes.assemble_manifests C c s).0
  unfolding Volumes.assemble_manifests
  volumes-IsLabelled c s =
      after_partial _ _ (config_maps-IsPartial (get_resource_volumes c).config_maps c.namespace s)
        (λ cms s'. secrets_behind c cms cms.error s')

  auth-IsLabelled : (c : Capp) (s : Run C.Cluster) → IsLabelled (Auth.assemble_manifests C c s).0
  unfolding Auth.assemble_manifests build_role build_role_binding lookup
  auth-IsLabelled c s = auth_behind _
    where
      auth_behind :
          (r : Outcome (List String) × Run C.Cluster)
          → IsLabelled
              (continue r (λ users. pure (
                build_role c.name c.namespace
                ∷ build_role_binding c.name c.namespace (Auth.generate_subjects_from_users users)
                ∷ []))).0
      auth_behind (ok users, s) = (refl, (refl, tt))
      auth_behind (err e, s) = tt
      auth_behind (panic, s) = tt

  module _ (E : Externals) (c : Capp) where
    behind_auth :
        (vs : List Manifest) (t : Reply (List Manifest)) (s : Run C.Cluster)
        → All IsManaged vs
        → IsTried t
        → IsLabelled
            ((elim t as (λ t. Action C.Cluster (List Manifest)) [
              | failed e ↦ do record_event warning event_auth_failed (error_text e); raise e
              | done ms ↦ pure ((build_capp E c ∷ build_namespace E c.namespace ∷ []) ++ (vs ++ ms))
            ])
              s).0
    unfolding build_namespace lookup
    behind_auth vs (failed e) s h k = tt
    behind_auth vs (done ms) s h k =
        (build_capp-IsManaged E c, (refl, All-append IsManaged vs ms h k))

    behind_volumes :
        (t : Reply (List Manifest)) (s : Run C.Cluster)
        → IsTried t
        → IsLabelled
            ((elim t as (λ t. Action C.Cluster (List Manifest)) [
              | failed e ↦ do record_event warning event_volume_not_found (error_text e); raise e
              | done vs ↦ do
                auth ← attempt (Auth.assemble_manifests C c)
                elim auth [
                  | failed e ↦ do record_event warning event_auth_failed (error_text e); raise e
                  | done ms ↦
                      pure ((build_capp E c ∷ build_namespace E c.namespace ∷ []) ++ (vs ++ ms))
                ]
            ])
              s).0
    behind_volumes (failed e) s h = tt
    behind_volumes (done vs) s h =
        after_attempt _ _ (auth-IsLabelled c s) (λ t s'. behind_auth vs t s' h)

    -- Whatever the client answers, every manifest that the directors return has the label that
    -- says that the deployer manages it.
    pub assemble_manifests-IsLabelled :
        (s : Run C.Cluster) → IsLabelled (assemble_manifests E C c s).0
    unfolding assemble_manifests
    assemble_manifests-IsLabelled s = after_attempt _ _ (volumes-IsLabelled c s) behind_volumes
