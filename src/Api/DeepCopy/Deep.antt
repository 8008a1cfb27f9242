-- ===== src/Api/DeepCopy/Deep.antt =====
-- The copies of an RCSConfigSpec, an RCSConfig and an RCSConfigList have their values, and share
-- nothing with them.
use rcs_ocm_deployer.Common.{
  ℕ, zero, suc, ◌≡◌, refl, sym, ap, ◌∙◌, inl, inr, ◌⊎◌, String, Option, none, some, List, [], ◌∷◌,
  ◌++◌, append_assoc, append-nil, length, length-append,
}
use rcs_ocm_deployer.Api.DeepCopy.{
  Packages, Slice, SpecVar, ConfigVar, ConfigListVar, Memory, Copy, configs, load_configs,
  copy_texts, deep_copy_spec, deep_copy_config, copy_items, copy_configs, deep_copy_list, deep_copy,
}
use rcs_ocm_deployer.Api.DeepCopy.Fresh.{
  IsFresh, IsInside, IsDeep, read_texts, copy_texts-IsDeep, both, values, both-IsFresh,
}
use rcs_ocm_deployer.Api.DeepCopy.{list_deep_copy, as_object, list_deep_copy_object}
use rcs_ocm_deployer.Api.DeepCopy.Values.{
  SpecValue, ConfigValue, Copies, ListValue, read_spec, read_config, read_items, read_configs,
  read_list, read_pointer,
}

module _ (T : Packages) (D : Copies T) where
  abbrev copy_spec : Copy T (SpecVar T)
  copy_spec = deep_copy_spec T D.copy_meta D.copy_list_meta D.copy_resources

  abbrev copy_config : Copy T (ConfigVar T)
  copy_config = deep_copy_config T D.copy_meta D.copy_list_meta D.copy_resources

  copy_spec-IsDeep : IsDeep T copy_spec (read_spec T D)
  unfolding deep_copy_spec
  copy_spec-IsDeep v h inside =
      let rest = both T D.copy_resources (copy_texts T) in
      let read_rest = values T D.read_resources (read_texts T) in
      let (added, grown, keeps) =
        both-IsFresh T (copy_texts T) rest (read_texts T) read_rest v.placements
          (v.default_resources, v.invalid_hostname_patterns) h (copy_texts-IsDeep T v.placements)
          (λ h.
            both-IsFresh T D.copy_resources (copy_texts T) D.read_resources (read_texts T)
              v.default_resources v.invalid_hostname_patterns h
              (D.resources-IsDeep v.default_resources)
              (copy_texts-IsDeep T v.invalid_hostname_patterns))
          (λ later.
            ap (λ s. (s.placements, (s.default_resources, s.invalid_hostname_patterns)))
              (inside later)) in
      (
        added,
        grown,
        λ g later e.
            ap
              (λ (p : Option (List String) × (D.ResourcesValue × Option (List String))). record {
                placements_namespace = v.placements_namespace;
                placements = p.0;
                default_resources = p.1.0;
                invalid_hostname_patterns = p.1.1;
              })
              (keeps g later e),
      )

  copy_config-IsDeep : IsDeep T copy_config (read_config T D)
  unfolding deep_copy_config
  copy_config-IsDeep v h inside =
      let (added, grown, keeps) =
        both-IsFresh T D.copy_meta copy_spec D.read_meta (read_spec T D) v.metadata v.spec h
          (D.meta-IsDeep v.metadata) (copy_spec-IsDeep v.spec)
          (λ later. ap (λ c. (c.metadata, c.spec)) (inside later)) in
      (
        added,
        grown,
        λ g later e.
            ap
              (λ (p : D.MetaValue × SpecValue D.ResourcesValue). record {
                type_meta = v.type_meta;
                metadata = p.0;
                spec = p.1;
                status = v.status;
              })
              (keeps g later e),
      )

  abbrev Value : Type 0
  Value = ConfigValue D.MetaValue D.ResourcesValue

  abbrev copy_all : Copy T (List (ConfigVar T))
  copy_all = copy_items T D.copy_meta D.copy_list_meta D.copy_resources

  -- a list by its first element and the others
  abbrev uncons : Value → List Value → Value × List Value
  uncons d [] = (d, [])
  uncons d (x ∷ xs) = (x, xs)

  copy_items-IsDeep : IsDeep T copy_all (read_items T D)
  unfolding copy_items
  copy_items-IsDeep [] h inside = ([], sym (append-nil h), λ g later e. refl)
  copy_items-IsDeep (v ∷ vs) h inside =
      let (added, grown, keeps) =
        both-IsFresh T copy_config copy_all (read_config T D) (read_items T D) v vs h
          (copy_config-IsDeep v) (copy_items-IsDeep vs)
          (λ later. ap (uncons ((read_config T D) h v)) (inside later)) in
      (added, grown, λ g later e. ap (λ (p : Value × List Value). p.0 ∷ p.1) (keeps g later e))

  -- an address that is not inside reads nothing
  load-append :
      (h later : Memory T) (r : ℕ)
      → (load_configs T h r ≡ []) ⊎ (load_configs T (h ++ later) r ≡ load_configs T h r)
  load-append [] later r = inl refl
  load-append (cell ∷ h) later zero = inr refl
  load-append (cell ∷ h) later (suc r) = load-append h later r

  load-length :
      (g later : Memory T) (vs : List (ConfigVar T))
      → load_configs T (g ++ (configs vs ∷ later)) (length g) ≡ vs
  load-length [] later vs = refl
  load-length (cell ∷ g) later vs = load-length g later vs

  abbrev copy_slice : Copy T Slice
  copy_slice = copy_configs T D.copy_meta D.copy_list_meta D.copy_resources

  abbrev or_nil : Option (List Value) → List Value
  or_nil none = []
  or_nil (some xs) = xs

  items-IsInside :
      (r : ℕ) (h : Memory T)
      → IsInside T (read_configs T D) (some r) h
      → IsInside T (read_items T D) (load_configs T h r) h
  items-IsInside r h inside later = elim (load-append h later r) [
    | inl e ↦ rw e refl
    | inr e ↦ ap or_nil (rw e at (inside later))
  ]

  copy_configs-IsDeep : IsDeep T copy_slice (read_configs T D)
  unfolding copy_configs
  copy_configs-IsDeep none h inside = ([], sym (append-nil h), λ g later e. refl)
  copy_configs-IsDeep (some r) h inside =
      let vs = load_configs T h r in
      let h₁ = (copy_all vs h).1 in
      let array = configs (copy_all vs h).0 in
      let (added, grown, keeps) = copy_items-IsDeep vs h (items-IsInside r h inside) in
      (
        added ++ array ∷ [],
        ap (λ x. x ++ array ∷ []) grown ∙ append_assoc h added (array ∷ []),
        λ g later e.
            let copies = (copy_all vs h).0 in
            let whole : g ++ ((added ++ array ∷ []) ++ later) ≡ (g ++ added) ++ (array ∷ later) =
              ap (λ x. g ++ x) (append_assoc added (array ∷ []) later)
              ∙ sym (append_assoc g added (array ∷ later)) in
            let lengths : length h₁ ≡ length (g ++ added) =
              rw (grown, length-append h added, length-append g added, e) refl in
            let there : load_configs T (g ++ ((added ++ array ∷ []) ++ later)) (length h₁)
                ≡ copies =
              ap (λ n. load_configs T (g ++ ((added ++ array ∷ []) ++ later)) n) lengths
              ∙ ap (λ x. load_configs T x (length (g ++ added))) whole
              ∙ load-length (g ++ added) later copies in
            let its : (read_items T D) (g ++ ((added ++ array ∷ []) ++ later)) copies
                ≡ (read_items T D) h vs =
              ap (λ x. (read_items T D) (g ++ x) copies) (append_assoc added (array ∷ []) later)
              ∙ keeps g (array ∷ later) e in
            ap some (ap ((read_items T D) (g ++ ((added ++ array ∷ []) ++ later))) there ∙ its),
      )

  copy_list-IsDeep :
      IsDeep T (deep_copy_list T D.copy_meta D.copy_list_meta D.copy_resources) (read_list T D)
  unfolding deep_copy_list
  copy_list-IsDeep v h inside =
      let (added, grown, keeps) =
        both-IsFresh T D.copy_list_meta copy_slice D.read_list_meta (read_configs T D) v.metadata
          v.items h (D.list_meta-IsDeep v.metadata) (copy_configs-IsDeep v.items)
          (λ later. ap (λ c. (c.metadata, c.items)) (inside later)) in
      (
        added,
        grown,
        λ g later e.
            ap
              (λ (p : D.ListMetaValue × Option (List Value)). record {
                type_meta = v.type_meta;
                metadata = p.0;
                items = p.1;
              })
              (keeps g later e),
      )

  abbrev or_else : ListValue T D → Option (ListValue T D) → ListValue T D
  or_else d none = d
  or_else d (some x) = x

  copied-IsFresh :
      (p : Option (ConfigListVar T)) (h : Memory T)
      → IsInside T (read_pointer T D) p h
      → IsFresh T
          (list_deep_copy T D.copy_meta D.copy_list_meta D.copy_resources)
          (read_pointer T D)
          p
          h
  unfolding deep_copy
  copied-IsFresh none h inside = ([], sym (append-nil h), λ g later e. refl)
  copied-IsFresh (some v) h inside =
      let (added, grown, keeps) =
        copy_list-IsDeep v h (λ later. ap (or_else (read_list T D h v)) (inside later)) in
      (added, grown, λ g later e. ap some (keeps g later e))

  object-eq :
      (r : Option (ConfigListVar T) × Memory T)
      → as_object T D.copy_meta D.copy_list_meta D.copy_resources r ≡ r
  object-eq (none, h) = refl
  object-eq (some v, h) = refl

  -- The copy of a pointer to an RCSConfigList that points at nothing outside of the memory: it only
  -- adds to the memory, and it has the value of the original, where nil stays nil and an empty
  -- slice stays empty. It keeps this value whatever is written to the memory that was there before,
  -- and whatever is added later. It is asked that the copies of the other packages do so too.
  pub list_deep_copy_object-IsFresh :
      (p : Option (ConfigListVar T)) (h : Memory T)
      → IsInside T (read_pointer T D) p h
      → IsFresh T
          (list_deep_copy_object T D.copy_meta D.copy_list_meta D.copy_resources)
          (read_pointer T D)
          p
          h
  unfolding list_deep_copy_object
  list_deep_copy_object-IsFresh p h inside =
      let same = object-eq (list_deep_copy T D.copy_meta D.copy_list_meta D.copy_resources p h) in
      rw same (copied-IsFresh p h inside)
