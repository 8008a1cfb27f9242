-- ===== src/Webhooks/Mutator/Again.antt =====
-- The mutating webhook on a Capp that it has already mutated.
use rcs_ocm_deployer.Common.{
  String, ◌⊎◌, ◌≡◌, refl, sym, ap, Bool, true, false, inl, inr, Option, none, some, List, [], ◌∷◌,
  map, arith, eq_iff, if◌then◌else◌,
}
use rcs_ocm_deployer.Common.Dict.{Dict, lookup, lookup_nil, insert, lookup-insert}
use rcs_ocm_deployer.Api.Workload.{Capp, Container, ResourceList, Resources, RcsConfig}
use rcs_ocm_deployer.Webhooks.Mutator.{
  or_new, last_updated_by_key, is_excluded_service_account, mutate_annotations, mutate_resources,
  mutate,
}
use rcs_ocm_deployer.Webhooks.Mutator.Memory.{mutate_containers}
use rcs_ocm_deployer.Webhooks.Mutator.Defaults.{mutate_containers-eq-map}
use rcs_ocm_deployer.Webhooks.Mutator.Fill.{fill_name, fill, fill_container}

-- A second write of the same entry changes nothing.
insert_twice :
    (key value : String) (m : Dict String)
    → insert key value (insert key value m) ≡ insert key value m
unfolding insert
insert_twice key value [] = ground (arith, eq_iff key key)
insert_twice key value (entry ∷ rest) =
    ground (arith, eq_iff entry.0 key, insert_twice key value rest)

-- the annotations after `mutateAnnotations`
abbrev annotated : String → Dict String → Dict String
annotated u m = if is_excluded_service_account u then m else insert last_updated_by_key u m

annotated_twice : (u : String) (m : Dict String) → annotated u (annotated u m) ≡ annotated u m
annotated_twice u m = ground (arith, insert_twice last_updated_by_key u m)

-- there is no default of this name, or there is an entry
abbrev is_settled : Option ResourceList → String → ResourceList → Bool
is_settled d name m = elim (lookup_nil name d) [
  | none ↦ true
  | some quantity ↦ elim (lookup name m) [ none ↦ false | some old ↦ true ]
]

settled_by :
    (d : Option ResourceList) (name key : String) (m : ResourceList) (o : Option String)
    → lookup_nil name d ≡ o
    → (name ≡ key) ⊎ (is_settled d key m ≡ true)
    → is_settled d key (fill_name d name m) ≡ true
settled_by d name key m none h (inl e) = rw (sym e) (rw (h, is_settled) refl)
settled_by d name key m none h (inr e) = rw (h, fill_name) e
settled_by d name key m (some q) h e = grind (arith, lookup-insert name key q m, eq_iff name key)

-- a name is settled after its step, and a later step leaves it so
settled-fill_name :
    (d : Option ResourceList) (name key : String) (m : ResourceList)
    → (name ≡ key) ⊎ (is_settled d key m ≡ true)
    → is_settled d key (fill_name d name m) ≡ true
settled-fill_name d name key m e = settled_by d name key m (lookup_nil name d) refl e

fill_settled :
    (d : Option ResourceList) (name : String) (m : ResourceList)
    → is_settled d name m ≡ true
    → fill_name d name m ≡ m
fill_settled d name m e = ground arith

fill_twice : (d o : Option ResourceList) → fill d (fill d o) ≡ fill d o
fill_twice d none = refl
fill_twice d (some m) =
    let once = fill_name d "cpu" m in
    let twice = fill_name d "memory" once in
    let cpu = fill_settled d "cpu" twice (
      settled-fill_name d "memory" "cpu" once
        (inr (settled-fill_name d "cpu" "cpu" m (inl refl)))) in
    ap some (
      rw cpu
        (fill_settled d "memory" twice (settled-fill_name d "memory" "memory" once (inl refl))))

map-fill_twice :
    (d : Resources) (cs : List Container)
    → map (fill_container d) (map (fill_container d) cs) ≡ map (fill_container d) cs
map-fill_twice d [] = refl
map-fill_twice d (c ∷ cs) =
    rw
      (
        fill_twice d.limits c.resources.limits,
        fill_twice d.requests c.resources.requests,
        map-fill_twice d cs,
      )
      refl

mutate_containers_twice :
    (d : Resources) (cs : List Container)
    → mutate_containers (mutate_containers cs d) d ≡ mutate_containers cs d
mutate_containers_twice d cs =
    let e = mutate_containers-eq-map d in
    rw (e cs, e (map (fill_container d) cs)) (map-fill_twice d cs)

-- The mutating webhook may see the same object twice: a Capp that it has already mutated for the
-- same user and RCSConfig comes out as it went in, with every container and annotation.
pub mutate_twice :
    (c : Capp) (config : RcsConfig) (u : String)
    → mutate (mutate c config u) config u ≡ mutate c config u
unfolding mutate mutate_annotations mutate_resources
mutate_twice c config u =
    rw
      (
        annotated_twice u (or_new c.annotations),
        mutate_containers_twice config.spec.default_resources c.spec.pod.containers,
      )
      refl
