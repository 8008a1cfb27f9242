-- ===== src/Sync/Directors/Volumes/References.antt =====
-- The places of a Capp that may name a ConfigMap or a Secret, and those of them that
-- internal/sync/directors/volumes.go reads.
use rcs_ocm_deployer.Common.{
  String, ◌≡◌, ◌↔◌, ◌⊎◌, Option, none, some, List, [], ◌∷◌, arith, Option-cases, inl, inr,
}
use rcs_ocm_deployer.Common.Any.{Any, append_iff}
use rcs_ocm_deployer.Api.Workload.{
  Capp, Container, EnvFromSource, EnvVarSource, EnvVar, Volume, VolumeProjection,
}
use rcs_ocm_deployer.Sync.Directors.Volumes.Gather.{
  named, concat_map, env_config_map, env_secret, config_map_refs, secret_refs,
}

pub data Kind : Type 0 where
  of_config_map of_secret : Kind

pub data Place : Type 0 where
  in_env_from in_env in_volumes in_pull_secrets : Place
  in_init_env_from in_init_env in_projected in_log_spec in_route_spec : Place

-- the places that the code reads
abbrev pub IsCollected : Place → Type 0
IsCollected in_env_from = Unit
IsCollected in_env = Unit
IsCollected in_volumes = Unit
IsCollected in_pull_secrets = Unit
IsCollected _ = ⊥

abbrev env_from_ref : Kind → EnvFromSource → Option String
env_from_ref of_config_map r = r.config_map_ref
env_from_ref of_secret r = r.secret_ref

abbrev key_ref : Kind → EnvVarSource → Option String
key_ref of_config_map s = s.config_map_key_ref
key_ref of_secret s = s.secret_key_ref

abbrev volume_ref : Kind → Volume → Option String
volume_ref of_config_map v = v.config_map
volume_ref of_secret v = v.secret

abbrev projection_ref : Kind → VolumeProjection → Option String
projection_ref of_config_map p = p.config_map
projection_ref of_secret p = p.secret

-- some container takes all its variables, or one, from the object of that name
abbrev EnvFromNames : Kind → String → List Container → Type 0
EnvFromNames k n cs = Any (λ x. Any (λ r. env_from_ref k r ≡ some n) x.env_from) cs

abbrev ReadsKey : Kind → String → EnvVar → Type 0
ReadsKey k n v = (s : EnvVarSource) × (v.value_from ≡ some s) × (key_ref k s ≡ some n)

abbrev EnvNames : Kind → String → List Container → Type 0
EnvNames k n cs = Any (λ x. Any (ReadsKey k n) x.env) cs

-- The Capp names the object of that kind at that place.
abbrev pub Refers : Kind → Capp → String → Place → Type 0
Refers k c n in_env_from = EnvFromNames k n c.spec.pod.containers
Refers k c n in_env = EnvNames k n c.spec.pod.containers
Refers k c n in_volumes = Any (λ v. volume_ref k v ≡ some n) c.spec.pod.volumes
Refers k c n in_init_env_from = EnvFromNames k n c.spec.pod.init_containers
Refers k c n in_init_env = EnvNames k n c.spec.pod.init_containers
Refers k c n in_projected =
    Any (λ v. Any (λ p. projection_ref k p ≡ some n) v.projected) c.spec.pod.volumes
Refers of_secret c n in_pull_secrets = Any (λ s. s ≡ n) c.spec.pod.image_pull_secrets
Refers of_secret c n in_log_spec = c.spec.log_spec.password_secret ≡ n
Refers of_secret c n in_route_spec = c.spec.tls_secret ≡ n
Refers of_config_map c n _ = ⊥

abbrev pub IsRead : Kind → Capp → String → Type 0
IsRead k c n = (p : Place) × IsCollected p × Refers k c n p

named_iff : (n : String) (o : Option String) → Any (λ m. m ≡ n) (named o) ↔ (o ≡ some n)
named_iff n none = ground arith
named_iff n (some m) = ground arith

concat_map_iff :
    {A : Type 0} (n : String) (f : A → List String) (P : A → Type 0)
    → ((x : A) → Any (λ m. m ≡ n) (f x) ↔ P x)
    → (xs : List A) → Any (λ m. m ≡ n) (concat_map f xs) ↔ Any P xs
concat_map_iff n f P h [] = ground arith
concat_map_iff n f P h (x ∷ xs) =
    append_iff _ (f x) (concat_map f xs) (h x) (concat_map_iff n f P h xs)

env_from-named_iff :
    (k : Kind) (n : String) (cs : List Container)
    → Any
        (λ m. m ≡ n)
        (concat_map (λ (x : Container). concat_map (λ r. named (env_from_ref k r)) x.env_from) cs)
      ↔ EnvFromNames k n cs
env_from-named_iff k n =
    concat_map_iff n _ _
      (λ x. concat_map_iff n _ _ (λ r. named_iff n (env_from_ref k r)) x.env_from)

env_config_map_iff :
    (n : String) (v : EnvVar) → Any (λ m. m ≡ n) (env_config_map v) ↔ ReadsKey of_config_map n v
env_config_map_iff n v = elim (Option-cases v.value_from) [
  | inl e ↦ ground arith
  | inr (s, e) ↦ let named_key = named_iff n s.config_map_key_ref in ground arith
]

env_secret_iff :
    (n : String) (v : EnvVar) → Any (λ m. m ≡ n) (env_secret v) ↔ ReadsKey of_secret n v
env_secret_iff n v = elim (Option-cases v.value_from) [
  | inl e ↦ ground arith
  | inr (s, e) ↦ let named_key = named_iff n s.secret_key_ref in ground arith
]

volumes-named_iff :
    (k : Kind) (n : String) (vs : List Volume)
    → Any (λ m. m ≡ n) (concat_map (λ (v : Volume). named (volume_ref k v)) vs)
      ↔ Any (λ v. volume_ref k v ≡ some n) vs
volumes-named_iff k n = concat_map_iff n _ _ (λ v. named_iff n (volume_ref k v))

-- The four places that are read, as a sum.
read_at :
    (k : Kind) (c : Capp) (n : String)
    → IsRead k c n
    → Refers k c n in_env_from
      ⊎ (Refers k c n in_env ⊎ (Refers k c n in_volumes ⊎ Refers k c n in_pull_secrets))
read_at k c n (in_env_from, q, r) = inl r
read_at k c n (in_env, q, r) = inr (inl r)
read_at k c n (in_volumes, q, r) = inr (inr (inl r))
read_at k c n (in_pull_secrets, q, r) = inr (inr (inr r))
read_at k c n (p, q, r) = ground arith

IsRead-from :
    (k : Kind) (c : Capp) (n : String)
    → Refers k c n in_env_from
      ⊎ (Refers k c n in_env ⊎ (Refers k c n in_volumes ⊎ Refers k c n in_pull_secrets))
    → IsRead k c n
IsRead-from k c n (inl r) = (in_env_from, tt, r)
IsRead-from k c n (inr (inl r)) = (in_env, tt, r)
IsRead-from k c n (inr (inr (inl r))) = (in_volumes, tt, r)
IsRead-from k c n (inr (inr (inr r))) = (in_pull_secrets, tt, r)

-- The names that one list holds for each place that is read.
IsRead-iff :
    (k : Kind) (c : Capp) (n : String) {A : Type 0}
    → (A ↔ (
        Refers k c n in_env_from
        ⊎ (Refers k c n in_env ⊎ (Refers k c n in_volumes ⊎ Refers k c n in_pull_secrets))))
    → A ↔ IsRead k c n
IsRead-iff k c n h = (λ a. IsRead-from k c n (h.0 a), λ r. h.1 (read_at k c n r))

-- A ConfigMap is listed if and only if a place that the code reads names it.
pub config_map_refs_iff :
    (c : Capp) (n : String) → Any (λ m. m ≡ n) (config_map_refs c) ↔ IsRead of_config_map c n
config_map_refs_iff c n =
    let volumes = volumes-named_iff of_config_map n c.spec.pod.volumes in
    IsRead-iff of_config_map c n (
      append_iff _ _ _ (env_from-named_iff of_config_map n c.spec.pod.containers) (
        append_iff _ _ _
          (concat_map_iff n _ _ (λ x. concat_map_iff n _ _ (env_config_map_iff n) x.env)
            c.spec.pod.containers)
          (ground arith)))

-- A Secret is listed if and only if a place that the code reads names it.
pub secret_refs_iff :
    (c : Capp) (n : String) → Any (λ m. m ≡ n) (secret_refs c) ↔ IsRead of_secret c n
secret_refs_iff c n = IsRead-iff of_secret c n (
    append_iff _ _ _ (env_from-named_iff of_secret n c.spec.pod.containers) (
      append_iff _ _ _
        (concat_map_iff n _ _ (λ x. concat_map_iff n _ _ (env_secret_iff n) x.env)
          c.spec.pod.containers)
        (append_iff _ _ _ (volumes-named_iff of_secret n c.spec.pod.volumes) (λ h. h, λ h. h))))
