-- ===== src/Api/DeepCopy.antt =====
-- api/v1alpha1/zz_generated.deepcopy.go. A slice is a pointer to its array, so the arrays lie in an
-- explicit memory; the objects of other packages may point into it too.
pub mod Fresh
pub mod Values
pub mod Deep
use rcs_ocm_deployer.Common.{ℕ, zero, suc, String, Option, none, some, List, [], ◌∷◌, ◌++◌, length}
use rcs_ocm_deployer.Api.Meta.{TypeMeta}

-- The types of other packages: `metav1.ObjectMeta`, `metav1.ListMeta`,
-- `corev1.ResourceRequirements`, and what they point at.
pub record Packages : Type 1 where
  pub ObjectMetaVar : Type 0
  pub ListMetaVar : Type 0
  pub ResourcesVar : Type 0
  pub Pointed : Type 0

-- A slice: nil, or the address of its array.
abbrev pub Slice : Type 0
Slice = Option ℕ

module _ (T : Packages) where
  -- an `RCSConfigSpec` in memory
  pub record SpecVar : Type 0 where
    pub placements_namespace : String
    pub placements : Slice
    pub default_resources : T.ResourcesVar
    pub invalid_hostname_patterns : Slice

  -- an `RCSConfigStatus` in memory, which has no fields
  abbrev pub StatusVar : Type 0
  StatusVar = Unit {0}

  -- an `RCSConfig` in memory
  pub record ConfigVar : Type 0 where
    pub type_meta : TypeMeta
    pub metadata : T.ObjectMetaVar
    pub spec : SpecVar
    pub status : StatusVar

  -- an `RCSConfigList` in memory
  pub record ConfigListVar : Type 0 where
    pub type_meta : TypeMeta
    pub metadata : T.ListMetaVar
    pub items : Slice

  pub data Cell : Type 0 where
    texts : List String → Cell
    configs : List ConfigVar → Cell
    pointed : T.Pointed → Cell

  abbrev pub Memory : Type 0
  Memory = List Cell

  -- `DeepCopyInto` from a variable, and the memory behind it
  abbrev pub Copy : Type 0 → Type 0
  Copy M = M → Memory → M × Memory

  abbrev pub texts_of : Cell → List String
  texts_of (texts ts) = ts
  texts_of (configs cs) = []
  texts_of (pointed p) = []

  abbrev pub configs_of : Cell → List ConfigVar
  configs_of (texts ts) = []
  configs_of (configs cs) = cs
  configs_of (pointed p) = []

  -- the array at an address
  abbrev pub load_texts : Memory → ℕ → List String
  load_texts [] r = []
  load_texts (cell ∷ h) zero = texts_of cell
  load_texts (cell ∷ h) (suc r) = load_texts h r

  abbrev pub load_configs : Memory → ℕ → List ConfigVar
  load_configs [] r = []
  load_configs (cell ∷ h) zero = configs_of cell
  load_configs (cell ∷ h) (suc r) = load_configs h r

  -- `if in.Placements != nil { …; *out = make([]string, len(*in)); copy(*out, *in) }`
  unfoldable pub copy_texts : Copy Slice
  copy_texts none h = (none, h)
  copy_texts (some r) h = (some (length h), h ++ texts (load_texts h r) ∷ [])

  -- `DeepCopy` of a pointer: nil for nil, and else a copy into a new variable
  unfoldable pub deep_copy : {M : Type 0} → Copy M → Copy (Option M)
  deep_copy copy none h = (none, h)
  deep_copy copy (some v) h = let (copied, h₁) = copy v h in (some copied, h₁)

  -- `RCSConfigStatus.DeepCopyInto`
  unfoldable pub deep_copy_status : Copy StatusVar
  deep_copy_status v h = (v, h)

  -- `RCSConfigStatus.DeepCopy`
  abbrev pub status_deep_copy : Copy (Option StatusVar)
  status_deep_copy = deep_copy deep_copy_status

  module _ (copy_meta : Copy T.ObjectMetaVar) (copy_list_meta : Copy T.ListMetaVar)
      (copy_resources : Copy T.ResourcesVar) where
    -- `RCSConfigSpec.DeepCopyInto`
    unfoldable pub deep_copy_spec : Copy SpecVar
    deep_copy_spec v h =
        let (placements, h₁) = copy_texts v.placements h in
        let (resources, h₂) = copy_resources v.default_resources h₁ in
        let (patterns, h₃) = copy_texts v.invalid_hostname_patterns h₂ in
        (
          record v {
            placements = placements;
            default_resources = resources;
            invalid_hostname_patterns = patterns;
          },
          h₃,
        )

    -- `RCSConfig.DeepCopyInto`
    unfoldable pub deep_copy_config : Copy ConfigVar
    deep_copy_config v h =
        let (metadata, h₁) = copy_meta v.metadata h in
        let (spec, h₂) = deep_copy_spec v.spec h₁ in
        (record v { metadata = metadata; spec = spec }, h₂)

    -- the loop over the items
    unfoldable pub copy_items : Copy (List ConfigVar)
    copy_items [] h = ([], h)
    copy_items (v ∷ vs) h =
        let (copied, h₁) = deep_copy_config v h in
        let (rest, h₂) = copy_items vs h₁ in (copied ∷ rest, h₂)

    -- the slice of the items: the new array stands in memory behind what its elements point at
    unfoldable pub copy_configs : Copy Slice
    copy_configs none h = (none, h)
    copy_configs (some r) h =
        let (items, h₁) = copy_items (load_configs h r) h in
        (some (length h₁), h₁ ++ configs items ∷ [])

    -- `RCSConfigList.DeepCopyInto`
    unfoldable pub deep_copy_list : Copy ConfigListVar
    deep_copy_list v h =
        let (metadata, h₁) = copy_list_meta v.metadata h in
        let (items, h₂) = copy_configs v.items h₁ in
        (record v { metadata = metadata; items = items }, h₂)

    -- `RCSConfigSpec.DeepCopy`
    abbrev pub spec_deep_copy : Copy (Option SpecVar)
    spec_deep_copy = deep_copy deep_copy_spec

    -- `RCSConfig.DeepCopy`
    abbrev pub config_deep_copy : Copy (Option ConfigVar)
    config_deep_copy = deep_copy deep_copy_config

    -- `RCSConfigList.DeepCopy`
    abbrev pub list_deep_copy : Copy (Option ConfigListVar)
    list_deep_copy = deep_copy deep_copy_list

    -- `if c := in.DeepCopy(); c != nil { return c }; return nil`
    abbrev pub as_object : {M : Type 0} → Option M × Memory → Option M × Memory
    as_object (some c, h) = (some c, h)
    as_object (none, h) = (none, h)

    -- `RCSConfig.DeepCopyObject`
    unfoldable pub config_deep_copy_object : Copy (Option ConfigVar)
    config_deep_copy_object p h = as_object (config_deep_copy p h)

    -- `RCSConfigList.DeepCopyObject`
    unfoldable pub list_deep_copy_object : Copy (Option ConfigListVar)
    list_deep_copy_object p h = as_object (list_deep_copy p h)
