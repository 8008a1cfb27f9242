-- ===== src/Sync/Directors/Volumes/Gather.antt =====
-- The names that `getResourceVolumesFromContainerSpec` collects, without its accumulators.
use rcs_ocm_deployer.Common.{
  String, ◌≡◌, refl, Option, none, some, List, [], ◌∷◌, ◌++◌, append-nil, append_assoc,
  Option-cases, inl, inr,
}
use rcs_ocm_deployer.Api.Workload.{Capp, Container, EnvFromSource, EnvVar, Volume}
use rcs_ocm_deployer.Sync.Directors.Volumes.{
  Names, add_name, add_names, env_from_names, gather_config_env_from, value_from_names, env_names,
  gather_config_value_from, gather_config_volumes, add_pull_secrets, get_resource_volumes,
}

abbrev pub named : Option String → List String
named none = []
named (some n) = n ∷ []

module _ {ℓ} {A : Type ℓ} where
  abbrev pub concat_map : (A → List String) → List A → List String
  concat_map f [] = []
  concat_map f (x ∷ xs) = f x ++ concat_map f xs

-- the two lists of names, put behind those that are there
abbrev extend : Names → List String → List String → Names
extend n cms ss = record { config_maps = n.config_maps ++ cms; secrets = n.secrets ++ ss }

-- the ConfigMap and the Secret of a variable
abbrev pub env_config_map : EnvVar → List String
env_config_map v = elim v.value_from [ none ↦ [] | some s ↦ named s.config_map_key_ref ]

abbrev pub env_secret : EnvVar → List String
env_secret v = elim v.value_from [ none ↦ [] | some s ↦ named s.secret_key_ref ]

-- The names of the ConfigMaps: of `envFrom` in all containers, of `env` in all containers, of the
-- volumes.
abbrev pub config_map_refs : Capp → List String
config_map_refs c =
    concat_map
      (λ (k : Container). concat_map (λ (r : EnvFromSource). named r.config_map_ref) k.env_from)
      c.spec.pod.containers
    ++ (concat_map (λ (k : Container). concat_map env_config_map k.env) c.spec.pod.containers
        ++ concat_map (λ (v : Volume). named v.config_map) c.spec.pod.volumes)

-- The names of the Secrets: in the same order, and then the image pull secrets.
abbrev pub secret_refs : Capp → List String
secret_refs c =
    concat_map
      (λ (k : Container). concat_map (λ (r : EnvFromSource). named r.secret_ref) k.env_from)
      c.spec.pod.containers
    ++ (concat_map (λ (k : Container). concat_map env_secret k.env) c.spec.pod.containers
        ++ (concat_map (λ (v : Volume). named v.secret) c.spec.pod.volumes
            ++ c.spec.pod.image_pull_secrets))

add_name-eq : (ns : List String) (o : Option String) → add_name ns o ≡ ns ++ named o
add_name-eq ns none = rw append-nil
add_name-eq ns (some n) = refl

-- A loop whose round puts names behind those so far puts all of them behind.
module _ {ℓ} {A : Type ℓ} (round : A → Names → Names) (cm se : A → List String)
    (loop : List A → Names → Names) (loop_nil : (n : Names) → loop [] n ≡ n)
    (loop_cons : (x : A) (xs : List A) (n : Names) → loop (x ∷ xs) n ≡ loop xs (round x n))
    (round_eq : (x : A) (n : Names) → round x n ≡ extend n (cm x) (se x)) where
  loop-eq : (xs : List A) (n : Names) → loop xs n ≡ extend n (concat_map cm xs) (concat_map se xs)
  loop-eq [] n = rw (loop_nil, append-nil, append-nil)
  loop-eq (x ∷ xs) n = rw (loop_cons, round_eq, loop-eq xs _, append_assoc, append_assoc)

add_names-eq :
    (n : Names) (cm se : Option String) → add_names n cm se ≡ extend n (named cm) (named se)
add_names-eq n cm se = rw (add_name-eq n.config_maps cm, add_name-eq n.secrets se)

env_from_names-eq :
    (rs : List EnvFromSource) (n : Names)
    → env_from_names rs n
      ≡ extend n
          (concat_map (λ (r : EnvFromSource). named r.config_map_ref) rs)
          (concat_map (λ (r : EnvFromSource). named r.secret_ref) rs)
unfolding env_from_names
env_from_names-eq =
    loop-eq (λ r n. add_names n r.config_map_ref r.secret_ref) _ _ env_from_names (λ n. refl)
      (λ x xs n. refl) (λ r n. add_names-eq n r.config_map_ref r.secret_ref)

value_from_names-eq :
    (v : EnvVar) (n : Names) → value_from_names v n ≡ extend n (env_config_map v) (env_secret v)
value_from_names-eq v n = elim (Option-cases v.value_from) [
  | inl e ↦ rw (e, append-nil, append-nil)
  | inr (s, e) ↦ rw e (add_names-eq n s.config_map_key_ref s.secret_key_ref)
]

env_names-eq :
    (vs : List EnvVar) (n : Names)
    → env_names vs n ≡ extend n (concat_map env_config_map vs) (concat_map env_secret vs)
unfolding env_names
env_names-eq =
    loop-eq value_from_names env_config_map env_secret env_names (λ n. refl) (λ x xs n. refl)
      value_from_names-eq

gather_env_from-eq :
    (cs : List Container) (n : Names)
    → gather_config_env_from cs n
      ≡ extend n
          (concat_map
            (λ (k : Container).
              concat_map (λ (r : EnvFromSource). named r.config_map_ref) k.env_from)
            cs)
          (concat_map
            (λ (k : Container). concat_map (λ (r : EnvFromSource). named r.secret_ref) k.env_from)
            cs)
unfolding gather_config_env_from
gather_env_from-eq =
    loop-eq (λ k n. env_from_names k.env_from n) _ _ gather_config_env_from (λ n. refl)
      (λ x xs n. refl) (λ k n. env_from_names-eq k.env_from n)

gather_value_from-eq :
    (cs : List Container) (n : Names)
    → gather_config_value_from cs n
      ≡ extend n
          (concat_map (λ (k : Container). concat_map env_config_map k.env) cs)
          (concat_map (λ (k : Container). concat_map env_secret k.env) cs)
unfolding gather_config_value_from
gather_value_from-eq =
    loop-eq (λ k n. env_names k.env n) _ _ gather_config_value_from (λ n. refl) (λ x xs n. refl)
      (λ k n. env_names-eq k.env n)

gather_volumes-eq :
    (vs : List Volume) (n : Names)
    → gather_config_volumes vs n
      ≡ extend n
          (concat_map (λ (v : Volume). named v.config_map) vs)
          (concat_map (λ (v : Volume). named v.secret) vs)
unfolding gather_config_volumes
gather_volumes-eq =
    loop-eq (λ v n. add_names n v.config_map v.secret) _ _ gather_config_volumes (λ n. refl)
      (λ x xs n. refl) (λ v n. add_names-eq n v.config_map v.secret)

add_pull_secrets-eq :
    (ss : List String) (n : Names) → add_pull_secrets ss n ≡ record n { secrets = n.secrets ++ ss }
unfolding add_pull_secrets
add_pull_secrets-eq [] n = rw append-nil
add_pull_secrets-eq (s ∷ ss) n = rw (add_pull_secrets-eq ss _, append_assoc)

-- The four passes collect the two lists.
pub get_resource_volumes-eq-refs :
    (c : Capp)
    → get_resource_volumes c ≡ record { config_maps = config_map_refs c; secrets = secret_refs c }
unfolding get_resource_volumes
get_resource_volumes-eq-refs c =
    simp (
      gather_env_from-eq, gather_value_from-eq, gather_volumes-eq, add_pull_secrets-eq,
      append_assoc,
    )
