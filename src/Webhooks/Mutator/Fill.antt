-- ===== src/Webhooks/Mutator/Fill.antt =====
-- What the defaults of the RCSConfig do to a list of resources and to a container, without memory.
use rcs_ocm_deployer.Common.{String, Option, none, some, List, [], ◌∷◌}
use rcs_ocm_deployer.Common.Dict.{lookup, lookup_nil, insert}
use rcs_ocm_deployer.Api.Workload.{Container, ResourceList, Resources}
use rcs_ocm_deployer.Webhooks.Mutator.Memory.{resource_names}

abbrev pub put_missing : String → String → ResourceList → ResourceList
put_missing name quantity m = elim (lookup name m) [ none ↦ insert name quantity m | some old ↦ m ]

-- one name: a default that is there is put where the list has no entry
abbrev pub fill_name : Option ResourceList → String → ResourceList → ResourceList
fill_name defaults name m = elim (lookup_nil name defaults) [
  | none ↦ m
  | some quantity ↦ put_missing name quantity m
]

abbrev pub fill_names : Option ResourceList → List String → ResourceList → ResourceList
fill_names defaults [] m = m
fill_names defaults (name ∷ names) m = fill_names defaults names (fill_name defaults name m)

-- a nil list stays nil
abbrev pub fill : Option ResourceList → Option ResourceList → Option ResourceList
fill defaults none = none
fill defaults (some m) = some (fill_names defaults resource_names m)

abbrev pub fill_container : Resources → Container → Container
fill_container defaults c = record c {
  resources = record {
    limits = fill defaults.limits c.resources.limits;
    requests = fill defaults.requests c.resources.requests;
  };
}
