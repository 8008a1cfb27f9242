-- ===== src/Webhooks/Mutator/Memory.antt =====
-- internal/webhooks/mutator.go: `mutateResources` and `setResourceQuantity`. A Go map is a pointer,
-- and the range loop works on a copy of each container; so the maps lie in an explicit memory, a
-- container holds the addresses of its maps, and the copy is dropped after its round.
pub mod Cells
pub mod Slots
use rcs_ocm_deployer.Common.{ℕ, zero, suc, String, Option, none, some, List, [], ◌∷◌, ◌++◌, length}
use rcs_ocm_deployer.Common.Dict.{lookup, lookup_nil, insert}
use rcs_ocm_deployer.Api.Workload.{Container, ResourceList, Resources}

-- the maps, by address
abbrev pub Memory : Type 0
Memory = List ResourceList

-- the map at an address
abbrev pub load : Memory → ℕ → ResourceList
load [] r = []
load (m ∷ h) zero = m
load (m ∷ h) (suc r) = load h r

abbrev pub store : Memory → ℕ → ResourceList → Memory
store [] r v = []
store (m ∷ h) zero v = v ∷ h
store (m ∷ h) (suc r) v = m ∷ store h r v

-- A `corev1.ResourceList` variable: nil or an address.
abbrev pub Ref : Type 0
Ref = Option ℕ

-- a container whose resource maps lie in memory
pub record Placed : Type 0 where
  pub container : Container
  pub limits : Ref
  pub requests : Ref

-- Decoding a Capp makes a map for each list that is there.
unfoldable pub allocate : Option ResourceList → Memory → Ref × Memory
allocate none h = (none, h)
allocate (some m) h = (some (length h), h ++ m ∷ [])

unfoldable pub allocate_all : List Container → Memory → List Placed × Memory
unfolding allocate
allocate_all [] h = ([], h)
allocate_all (c ∷ cs) h =
    let (requests, h₁) = allocate c.resources.requests h in
    let (limits, h₂) = allocate c.resources.limits h₁ in
    let (placed, h₃) = allocate_all cs h₂ in
    (record { container = c; limits = limits; requests = requests } ∷ placed, h₃)

-- The value of the variable behind a `*corev1.ResourceList`, and the memory.
pub record Slot : Type 0 where
  pub ref : Ref
  pub memory : Memory

-- `if *resourceList == nil { *resourceList = corev1.ResourceList{} }`, then the test and the write
-- of one quantity
abbrev pub set_at : ℕ → String → String → Memory → Memory
set_at r name quantity h = elim (lookup name (load h r)) [
  | some old ↦ h
  | none ↦ store h r (insert name quantity (load h r))
]

unfoldable pub set_default : String → String → Slot → Slot
set_default name quantity s = elim s.ref [
  | none ↦ record {
    ref = some (length s.memory);
    memory = set_at (length s.memory) name quantity (s.memory ++ [] ∷ []);
  }
  | some r ↦ record { ref = some r; memory = set_at r name quantity s.memory }
]

-- `setResourceQuantity`
unfoldable pub set_resource_quantity : Option ResourceList → List String → Slot → Slot
unfolding set_default lookup insert
set_resource_quantity defaults [] s = s
set_resource_quantity defaults (name ∷ resource_names) s =
    set_resource_quantity defaults resource_names
      (elim (lookup_nil name defaults) [ none ↦ s | some quantity ↦ set_default name quantity s ])

-- `[]corev1.ResourceName{corev1.ResourceCPU, corev1.ResourceMemory}`
abbrev pub resource_names : List String
resource_names = "cpu" ∷ "memory" ∷ []

-- one round: the two variables are fields of the loop's copy, of which only the memory stays
unfoldable pub mutate_round : Resources → Placed → Memory → Memory
unfolding set_resource_quantity
mutate_round defaults c h =
    let requests =
      set_resource_quantity defaults.requests resource_names
        (record { ref = c.requests; memory = h }) in
    let limits =
      set_resource_quantity defaults.limits resource_names
        (record { ref = c.limits; memory = requests.memory }) in
    limits.memory

unfoldable pub mutate_loop : Resources → List Placed → Memory → Memory
unfolding mutate_round
mutate_loop defaults [] h = h
mutate_loop defaults (c ∷ cs) h = mutate_loop defaults cs (mutate_round defaults c h)

-- a container with the maps that its fields point at
abbrev pub read_ref : Memory → Ref → Option ResourceList
read_ref h none = none
read_ref h (some r) = some (load h r)

abbrev pub read_back : Memory → Placed → Container
read_back h c = record c.container {
  resources = record { limits = read_ref h c.limits; requests = read_ref h c.requests };
}

abbrev pub read_all : Memory → List Placed → List Container
read_all h [] = []
read_all h (c ∷ cs) = read_back h c ∷ read_all h cs

-- the containers after the loop of `mutateResources`
unfoldable pub mutate_containers : List Container → Resources → List Container
unfolding allocate_all mutate_loop
mutate_containers cs defaults =
    let (placed, h) = allocate_all cs [] in read_all (mutate_loop defaults placed h) placed
