-- ===== src/Webhooks/Mutator/Memory/Cells.antt =====
-- The memory of the webhook: what a write at an address does, and where decoding puts the maps.
use rcs_ocm_deployer.Common.{
  ℕ, suc, ◌+◌, ◌≡◌, refl, ap, Option, none, some, List, [], ◌∷◌, ◌++◌, append-nil, append_assoc,
  length, length-append,
}
use rcs_ocm_deployer.Api.Workload.{Container, ResourceList}
use rcs_ocm_deployer.Webhooks.Mutator.Memory.{
  Memory, load, store, Ref, Placed, allocate, allocate_all,
}

pub load-length : (pre post : Memory) (m : ResourceList) → load (pre ++ m ∷ post) (length pre) ≡ m
load-length [] post m = refl
load-length (x ∷ pre) post m = load-length pre post m

pub store-length :
    (pre post : Memory) (m v : ResourceList)
    → store (pre ++ m ∷ post) (length pre) v ≡ pre ++ v ∷ post
store-length [] post m v = refl
store-length (x ∷ pre) post m v = ap (λ h. x ∷ h) (store-length pre post m v)

-- an address that is counted from the end of a part of the memory
abbrev pub shift : Memory → ℕ → ℕ
shift [] r = r
shift (x ∷ pre) r = suc (shift pre r)

pub length-shift : (pre post : Memory) → length (pre ++ post) ≡ shift pre (length post)
length-shift [] post = refl
length-shift (x ∷ pre) post = ap suc (length-shift pre post)

pub load-shift : (pre post : Memory) (r : ℕ) → load (pre ++ post) (shift pre r) ≡ load post r
load-shift [] post r = refl
load-shift (x ∷ pre) post r = load-shift pre post r

-- A write behind a part of the memory leaves that part as it is.
pub store-shift :
    (pre post : Memory) (r : ℕ) (v : ResourceList)
    → store (pre ++ post) (shift pre r) v ≡ pre ++ store post r v
store-shift [] post r v = refl
store-shift (x ∷ pre) post r v = ap (λ h. x ∷ h) (store-shift pre post r v)

-- the cells that decoding makes for a map, and the address
abbrev pub cells_of : Option ResourceList → Memory
cells_of none = []
cells_of (some m) = m ∷ []

abbrev pub ref_at : Option ResourceList → ℕ → Ref
ref_at none r = none
ref_at (some m) r = some r

-- the cells of a container, the requests first
abbrev pub cells : Container → Memory
cells c = cells_of c.resources.requests ++ cells_of c.resources.limits

abbrev pub place_at : Container → ℕ → Placed
place_at c r = record {
  container = c;
  limits = ref_at c.resources.limits (r + length (cells_of c.resources.requests));
  requests = ref_at c.resources.requests r;
}

abbrev pub all_cells : List Container → Memory
all_cells [] = []
all_cells (c ∷ cs) = cells c ++ all_cells cs

abbrev pub place_all : List Container → ℕ → List Placed
place_all [] r = []
place_all (c ∷ cs) r = place_at c r ∷ place_all cs (r + length (cells c))

allocate-eq :
    (o : Option ResourceList) (h : Memory) → allocate o h ≡ (ref_at o (length h), h ++ cells_of o)
unfolding allocate
allocate-eq none h = rw append-nil
allocate-eq (some m) h = refl

pub allocate_all-eq :
    (cs : List Container) (h : Memory)
    → allocate_all cs h ≡ (place_all cs (length h), h ++ all_cells cs)
unfolding allocate_all
allocate_all-eq [] h = rw append-nil
allocate_all-eq (c ∷ cs) h = simp (allocate-eq, allocate_all-eq cs, length-append, append_assoc)
