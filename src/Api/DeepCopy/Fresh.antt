-- ===== src/Api/DeepCopy/Fresh.antt =====
-- A copy has the value of the original, and nobody who writes to the original's memory changes it.
use rcs_ocm_deployer.Common.{
  ◌≡◌, refl, sym, ap, ◌∙◌, String, Option, none, some, List, [], ◌∷◌, ◌++◌, append_assoc,
  append-nil, length, length-append,
}
use rcs_ocm_deployer.Api.DeepCopy.{Packages, Slice, Memory, Copy, texts, load_texts, copy_texts}

module _ (T : Packages) where
  -- The copy only adds to the memory. Whatever the cells that were there before become, and
  -- whatever is added later, the copy keeps the value that the original had.
  abbrev pub IsFresh : {M V : Type 0} → Copy T M → (Memory T → M → V) → M → Memory T → Type 0
  IsFresh copy value m h =
      (added : Memory T) × ((copy m h).1 ≡ h ++ added)
      × ((g later : Memory T)
          → length g ≡ length h
          → value (g ++ (added ++ later)) (copy m h).0 ≡ value h m)

  -- A value that more memory does not change: nothing points outside.
  abbrev pub IsInside : {M V : Type 0} → (Memory T → M → V) → M → Memory T → Type 0
  IsInside value m h = (later : Memory T) → value (h ++ later) m ≡ value h m

  abbrev pub IsDeep : {M V : Type 0} → Copy T M → (Memory T → M → V) → Type 0
  IsDeep copy value = (m : _) (h : Memory T) → IsInside value m h → IsFresh copy value m h

  -- the texts of a slice
  abbrev pub read_texts : Memory T → Slice → Option (List String)
  read_texts h none = none
  read_texts h (some r) = some (load_texts T h r)

  load-length :
      (g later : Memory T) (ts : List String)
      → load_texts T (g ++ (texts ts ∷ later)) (length g) ≡ ts
  load-length [] later ts = refl
  load-length (cell ∷ g) later ts = load-length g later ts

  pub copy_texts-IsDeep : IsDeep (copy_texts T) read_texts
  unfolding copy_texts
  copy_texts-IsDeep none h inside = ([], sym (append-nil h), λ g later e. refl)
  copy_texts-IsDeep (some r) h inside = (
    texts (load_texts T h r) ∷ [],
    refl,
    λ g later e. ap some (
        ap (λ n. load_texts T (g ++ (texts (load_texts T h r) ∷ later)) n) (sym e)
        ∙ load-length g later (load_texts T h r)),
  )

  -- one copy after another
  abbrev pub both : {M N : Type 0} → Copy T M → Copy T N → Copy T (M × N)
  both copy copy' (m, n) h = let (m', h₁) = copy m h in let (n', h₂) = copy' n h₁ in ((m', n'), h₂)

  abbrev pub values :
      {M N V W : Type 0} → (Memory T → M → V) → (Memory T → N → W) → Memory T → M × N → V × W
  values value value' h (m, n) = (value h m, value' h n)

  pub both-IsFresh :
      {M N V W : Type 0} (copy : Copy T M) (copy' : Copy T N) (value : Memory T → M → V)
      (value' : Memory T → N → W) (m : M) (n : N) (h : Memory T)
      → ((h : Memory T) → IsInside value m h → IsFresh copy value m h)
      → ((h : Memory T) → IsInside value' n h → IsFresh copy' value' n h)
      → IsInside (values value value') (m, n) h
      → IsFresh (both copy copy') (values value value') (m, n) h
  both-IsFresh copy copy' value value' m n h deep deep' inside =
      let h₁ = (copy m h).1 in
      let (added, grown, keeps) = deep h (λ later. ap (λ p. p.0) (inside later)) in
      let alone : (later : Memory T) → value' (h ++ later) n ≡ value' h n =
        λ later. ap (λ p. p.1) (inside later) in
      let same : value' h₁ n ≡ value' h n = rw grown (alone added) in
      let inside' : IsInside value' n h₁ =
        λ later. rw same (rw grown (rw (append_assoc h added later) (alone (added ++ later)))) in
      let (added', grown', keeps') = deep' h₁ inside' in
      (
        added ++ added',
        grown' ∙ ap (λ x. x ++ added') grown ∙ append_assoc h added added',
        λ g later e.
            let first : value (g ++ ((added ++ added') ++ later)) (copy m h).0 ≡ value h m =
              rw (append_assoc added added' later) (keeps g (added' ++ later) e) in
            let lengths : length (g ++ added) ≡ length h₁ =
              rw (grown, length-append g added, length-append h added, e) refl in
            let second : value' (g ++ ((added ++ added') ++ later)) (copy' n h₁).0 ≡ value' h n =
              rw (append_assoc added added' later, sym (append_assoc g added (added' ++ later)))
                (keeps' (g ++ added) later lengths ∙ same) in
            rw (first, second) refl,
      )
