-- ===== src/Webhooks/Mutator/Defaults.antt =====
-- `mutateResources` of internal/webhooks/mutator.go against its description without memory.
use rcs_ocm_deployer.Common.{
  ℕ, ◌+◌, ◌≡◌, refl, ◌∙◌, ap, sym, Option, none, some, List, [], ◌∷◌, ◌++◌, map, append-nil,
  append_assoc, length, length-append,
}
use rcs_ocm_deployer.Api.Workload.{Container, ResourceList, Resources}
use rcs_ocm_deployer.Webhooks.Mutator.Memory.{
  Memory, mutate_round, mutate_loop, read_ref, read_all, mutate_containers,
}
use rcs_ocm_deployer.Webhooks.Mutator.Memory.Cells.{
  load-length, cells_of, ref_at, cells, place_at, all_cells, place_all, allocate_all-eq,
}
use rcs_ocm_deployer.Webhooks.Mutator.Memory.Slots.{set_resource_quantity-eq-fill}
use rcs_ocm_deployer.Webhooks.Mutator.Fill.{fill, fill_container}

-- brackets moved
split_right : (p q x y : Memory) → p ++ ((q ++ x) ++ y) ≡ p ++ (q ++ (x ++ y))
split_right p q x y = simp append_assoc

move_left : (p q x y z : Memory) → p ++ (q ++ ((x ++ y) ++ z)) ≡ (p ++ q) ++ (x ++ (y ++ z))
move_left p q x y z = simp append_assoc

move_right :
    (p q x y z t : Memory) → (p ++ q) ++ (x ++ ((y ++ z) ++ t)) ≡ p ++ ((q ++ x) ++ (y ++ (z ++ t)))
move_right p q x y z t = simp append_assoc

length-fill :
    (defaults o : Option ResourceList) → length (cells_of (fill defaults o)) ≡ length (cells_of o)
length-fill defaults none = refl
length-fill defaults (some m) = refl

mutate_round-eq :
    (d : Resources) (c : Container) (r : ℕ) (h pre post : Memory)
    → r ≡ length pre
    → h ≡ pre ++ (cells c ++ post)
    → (extra : Memory) × (mutate_round d (place_at c r) h
        ≡ pre ++ (cells (fill_container d c) ++ (post ++ extra)))
unfolding mutate_round
mutate_round-eq d c r h pre post at e =
    let rs = c.resources.requests in
    let ls = c.resources.limits in
    let rs' = fill d.requests rs in
    let (more, e₁) =
      set_resource_quantity-eq-fill d.requests rs r h pre (cells_of ls ++ post) at
        (e ∙ simp append_assoc) in
    let (extra, e₂) =
      set_resource_quantity-eq-fill d.limits ls (r + length (cells_of rs)) _ (pre ++ cells_of rs')
        (post ++ more) (rw at (simp (length-append, length-fill))) (e₁ ∙ simp append_assoc) in
    (more ++ extra, e₂ ∙ simp append_assoc)

mutate_loop-eq :
    (d : Resources) (cs : List Container) (r : ℕ) (h pre post : Memory)
    → r ≡ length pre
    → h ≡ pre ++ (all_cells cs ++ post)
    → (extra : Memory) × (mutate_loop d (place_all cs r) h
        ≡ pre ++ (all_cells (map (fill_container d) cs) ++ (post ++ extra)))
unfolding mutate_loop
mutate_loop-eq d [] r h pre post at e = ([], e ∙ rw append-nil)
mutate_loop-eq d (c ∷ cs) r h pre post at e =
    let (more, e₁) =
      mutate_round-eq d c r h pre (all_cells cs ++ post) at (e ∙ split_right pre _ _ post) in
    let (extra, e₂) =
      mutate_loop-eq d cs (r + length (cells c)) _ (pre ++ cells (fill_container d c))
        (post ++ more) (rw at (simp (length-append, length-fill)))
        (e₁ ∙ move_left pre _ _ post more) in
    (more ++ extra, e₂ ∙ move_right pre _ _ post more extra)

read_ref-cells :
    (d o : Option ResourceList) (r : ℕ) (h pre post : Memory)
    → r ≡ length pre
    → h ≡ pre ++ (cells_of (fill d o) ++ post)
    → read_ref h (ref_at o r) ≡ fill d o
read_ref-cells d none r h pre post at e = refl
read_ref-cells d (some m) r h pre post at e = rw (at, e) (ap some (load-length pre post _))

read_all-cells :
    (d : Resources) (cs : List Container) (r : ℕ) (h pre post : Memory)
    → r ≡ length pre
    → h ≡ pre ++ (all_cells (map (fill_container d) cs) ++ post)
    → read_all h (place_all cs r) ≡ map (fill_container d) cs
read_all-cells d [] r h pre post at e = refl
read_all-cells d (c ∷ cs) r h pre post at e =
    let rs = c.resources.requests in
    let ls = c.resources.limits in
    let rest = all_cells (map (fill_container d) cs) ++ post in
    rw
      (
        read_ref-cells d.requests rs r h pre (cells_of (fill d.limits ls) ++ rest) at
            (e ∙ simp append_assoc),
        read_ref-cells d.limits ls (r + length (cells_of rs)) h
            (pre ++ cells_of (fill d.requests rs)) rest (rw at (simp (length-append, length-fill)))
            (e ∙ simp append_assoc),
      )
      (ap (λ t. fill_container d c ∷ t)
        (read_all-cells d cs (r + length (cells c)) h (pre ++ cells (fill_container d c)) post
          (rw at (simp (length-append, length-fill))) (e ∙ simp append_assoc)))

-- The containers after the loop are those before it with the defaults filled in: a quantity of the
-- defaults for `cpu` or `memory` is put into the limits or the requests of a container exactly
-- when that list is there and has no entry; a list that is nil stays nil.
pub mutate_containers-eq-map :
    (d : Resources) (cs : List Container) → mutate_containers cs d ≡ map (fill_container d) cs
unfolding mutate_containers
mutate_containers-eq-map d cs =
    let (extra, e) = mutate_loop-eq d cs 0 (all_cells cs) [] [] refl (sym (append-nil _)) in
    rw allocate_all-eq (read_all-cells d cs 0 _ [] extra refl e)
