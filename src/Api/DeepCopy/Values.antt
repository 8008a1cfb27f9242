-- ===== src/Api/DeepCopy/Values.antt =====
-- What the variables stand for, and what is asked of the copies of other packages.
use rcs_ocm_deployer.Common.{String, Option, none, some, List, map}
use rcs_ocm_deployer.Api.Meta.{TypeMeta}
use rcs_ocm_deployer.Api.DeepCopy.{
  Packages, Slice, SpecVar, ConfigVar, ConfigListVar, Memory, Copy, load_configs,
}
use rcs_ocm_deployer.Api.DeepCopy.Fresh.{IsDeep, read_texts}

-- What the variables stand for, over the values of the other packages.
pub record SpecValue (R : Type 0) : Type 0 where
  pub placements_namespace : String
  pub placements : Option (List String)
  pub default_resources : R
  pub invalid_hostname_patterns : Option (List String)

pub record ConfigValue (M R : Type 0) : Type 0 where
  pub type_meta : TypeMeta
  pub metadata : M
  pub spec : SpecValue R
  pub status : Unit {0}

pub record ConfigListValue (L M R : Type 0) : Type 0 where
  pub type_meta : TypeMeta
  pub metadata : L
  pub items : Option (List (ConfigValue M R))

-- The copies of the other packages, what the copied variables stand for, and that the copies are
-- deep.
pub record Copies (T : Packages) : Type 1 where
  pub MetaValue : Type 0
  pub ListMetaValue : Type 0
  pub ResourcesValue : Type 0
  pub copy_meta : Copy T T.ObjectMetaVar
  pub copy_list_meta : Copy T T.ListMetaVar
  pub copy_resources : Copy T T.ResourcesVar
  pub read_meta : Memory T → T.ObjectMetaVar → MetaValue
  pub read_list_meta : Memory T → T.ListMetaVar → ListMetaValue
  pub read_resources : Memory T → T.ResourcesVar → ResourcesValue
  pub meta-IsDeep : IsDeep T copy_meta read_meta
  pub list_meta-IsDeep : IsDeep T copy_list_meta read_list_meta
  pub resources-IsDeep : IsDeep T copy_resources read_resources

module _ (T : Packages) (D : Copies T) where
  abbrev pub read_spec : Memory T → SpecVar T → SpecValue D.ResourcesValue
  read_spec h v = record {
    placements_namespace = v.placements_namespace;
    placements = read_texts T h v.placements;
    default_resources = D.read_resources h v.default_resources;
    invalid_hostname_patterns = read_texts T h v.invalid_hostname_patterns;
  }

  abbrev pub read_config : Memory T → ConfigVar T → ConfigValue D.MetaValue D.ResourcesValue
  read_config h v = record {
    type_meta = v.type_meta;
    metadata = D.read_meta h v.metadata;
    spec = read_spec h v.spec;
    status = v.status;
  }

  abbrev pub read_items :
      Memory T → List (ConfigVar T) → List (ConfigValue D.MetaValue D.ResourcesValue)
  read_items h vs = map (read_config h) vs

  abbrev pub read_configs :
      Memory T → Slice → Option (List (ConfigValue D.MetaValue D.ResourcesValue))
  read_configs h none = none
  read_configs h (some r) = some (read_items h (load_configs T h r))

  abbrev pub read_list :
      Memory T → ConfigListVar T → ConfigListValue D.ListMetaValue D.MetaValue D.ResourcesValue
  read_list h v = record {
    type_meta = v.type_meta;
    metadata = D.read_list_meta h v.metadata;
    items = read_configs h v.items;
  }

  abbrev pub ListValue : Type 0
  ListValue = ConfigListValue D.ListMetaValue D.MetaValue D.ResourcesValue

  -- behind a pointer, which may be nil
  abbrev pub read_pointer : Memory T → Option (ConfigListVar T) → Option ListValue
  read_pointer h none = none
  read_pointer h (some v) = some (read_list h v)
