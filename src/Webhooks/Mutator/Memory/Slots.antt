-- ===== src/Webhooks/Mutator/Memory/Slots.antt =====
-- What one call of `setResourceQuantity` does to the memory.
use rcs_ocm_deployer.Common.{
  ℕ, String, ◌≡◌, refl, ◌∙◌, sym, Option, none, some, List, [], ◌∷◌, ◌++◌, append-nil, append_assoc,
  length, arith,
}
use rcs_ocm_deployer.Api.Workload.{ResourceList}
use rcs_ocm_deployer.Webhooks.Mutator.Memory.{
  Memory, Ref, Slot, set_at, set_default, set_resource_quantity, resource_names,
}
use rcs_ocm_deployer.Webhooks.Mutator.Memory.Cells.{
  load-length, store-length, load-shift, store-shift, length-shift, shift, cells_of, ref_at,
}
use rcs_ocm_deployer.Webhooks.Mutator.Fill.{put_missing, fill_names, fill}

set_at-length :
    (name quantity : String) (pre post : Memory) (m : ResourceList)
    → set_at (length pre) name quantity (pre ++ m ∷ post)
      ≡ pre ++ put_missing name quantity m ∷ post
set_at-length name quantity pre post m =
    grind (arith, load-length pre post m, store-length pre post)

set_resource_quantity-some :
    (defaults : Option ResourceList) (names : List String) (pre post : Memory) (m : ResourceList)
    → (set_resource_quantity defaults names
        (record { ref = some (length pre); memory = pre ++ m ∷ post })).memory
      ≡ pre ++ fill_names defaults names m ∷ post
unfolding set_resource_quantity set_default
set_resource_quantity-some defaults [] pre post m = refl
set_resource_quantity-some defaults (name ∷ names) pre post m =
    grind (arith, set_at-length name, set_resource_quantity-some defaults names pre post _)

set_at-shift :
    (name quantity : String) (h extra : Memory) (k : ℕ)
    → set_at (shift h k) name quantity (h ++ extra) ≡ h ++ set_at k name quantity extra
set_at-shift name quantity h extra k = grind (arith, load-shift h extra k, store-shift h extra k)

-- The slot's variable is nil or points behind a memory.
abbrev Behind : Memory → Ref → Type 0
Behind h none = Unit
Behind h (some r) = (k : ℕ) × (r ≡ shift h k)

abbrev IsBehind : Memory → Slot → Type 0
IsBehind h s = Behind h s.ref × ((extra : Memory) × (s.memory ≡ h ++ extra))

set_default-IsBehind :
    (name quantity : String) (h : Memory) (r : Ref) (m : Memory)
    → IsBehind h (record { ref = r; memory = m })
    → IsBehind h (set_default name quantity (record { ref = r; memory = m }))
unfolding set_default
set_default-IsBehind name quantity h none m (u, (extra, e)) = rw e (
  (length extra, length-shift h extra),
  (
    set_at (length extra) name quantity (extra ++ [] ∷ []),
    rw (length-shift, append_assoc) (set_at-shift name quantity h _ _),
  ),
)
set_default-IsBehind name quantity h (some r) m ((k, at), (extra, e)) =
    rw (e, at) ((k, refl), (set_at k name quantity extra, set_at-shift name quantity h extra k))

quantity-IsBehind :
    (name : String) (h : Memory) (o : Option String) (s : Slot)
    → IsBehind h s
    → IsBehind h (elim o [ none ↦ s | some quantity ↦ set_default name quantity s ])
quantity-IsBehind name h none s b = b
quantity-IsBehind name h (some quantity) s b = set_default-IsBehind name quantity h s.ref s.memory b

set_resource_quantity-IsBehind :
    (defaults : Option ResourceList) (names : List String) (h : Memory) (s : Slot)
    → IsBehind h s
    → IsBehind h (set_resource_quantity defaults names s)
unfolding set_resource_quantity
set_resource_quantity-IsBehind defaults [] h s b = b
set_resource_quantity-IsBehind defaults (name ∷ names) h s b =
    set_resource_quantity-IsBehind defaults names h _ (quantity-IsBehind name h _ s b)

filled :
    (defaults o : Option ResourceList) (pre post : Memory)
    → (extra : Memory) × ((set_resource_quantity defaults resource_names
          (record { ref = ref_at o (length pre); memory = pre ++ (cells_of o ++ post) })).memory
        ≡ pre ++ (cells_of (fill defaults o) ++ (post ++ extra)))
filled defaults none pre post =
    let (u, (extra, e)) =
      set_resource_quantity-IsBehind defaults resource_names (pre ++ post)
        (record { ref = none; memory = pre ++ post }) (tt, ([], sym (append-nil _))) in
    (extra, e ∙ append_assoc pre post extra)
filled defaults (some m) pre post =
    ([], rw append-nil (set_resource_quantity-some defaults resource_names pre post m))

-- The call fills the cell, and what it adds lies behind everything else.
pub set_resource_quantity-eq-fill :
    (defaults o : Option ResourceList) (r : ℕ) (h pre post : Memory)
    → r ≡ length pre
    → h ≡ pre ++ (cells_of o ++ post)
    → (extra : Memory) × ((set_resource_quantity defaults resource_names
          (record { ref = ref_at o r; memory = h })).memory
        ≡ pre ++ (cells_of (fill defaults o) ++ (post ++ extra)))
set_resource_quantity-eq-fill defaults o r h pre post at e = rw (at, e) (filled defaults o pre post)
