-- ===== src/Tests/CopyRuns.antt =====
-- The theorem on the generated copies at a concrete memory.
use rcs_ocm_deployer.Common.{refl, sym, String, Option, none, some, List, [], ◌∷◌, append-nil}
use rcs_ocm_deployer.Api.Meta.{ObjectMeta, zero_meta, zero_type}
use rcs_ocm_deployer.Api.DeepCopy.{
  Packages, Slice, ConfigListVar, Memory, texts, configs, copy_texts, list_deep_copy_object,
}
use rcs_ocm_deployer.Api.DeepCopy.Fresh.{IsFresh, IsInside, IsDeep, read_texts, copy_texts-IsDeep}
use rcs_ocm_deployer.Api.DeepCopy.Values.{Copies, read_pointer}
use rcs_ocm_deployer.Api.DeepCopy.Deep.{list_deep_copy_object-IsFresh}

-- metadata without pointers, and resources that are a slice
abbrev packages : Packages
packages = record {
  ObjectMetaVar = ObjectMeta;
  ListMetaVar = Unit;
  ResourcesVar = Slice;
  Pointed = ⊥;
}

itself : {M : Type 0} → IsDeep packages {M = M} (λ m h. (m, h)) (λ h m. m)
itself m h inside = ([], sym (append-nil h), λ g later e. refl)

abbrev copies : Copies packages
copies = record {
  MetaValue = ObjectMeta;
  ListMetaValue = Unit;
  ResourcesValue = Option (List String);
  copy_meta = λ m h. (m, h);
  copy_list_meta = λ m h. (m, h);
  copy_resources = copy_texts packages;
  read_meta = λ h m. m;
  read_list_meta = λ h m. m;
  read_resources = read_texts packages;
  meta-IsDeep = itself;
  list_meta-IsDeep = itself;
  resources-IsDeep = copy_texts-IsDeep packages;
}

-- one RCSConfig, with placements and without patterns
abbrev memory : Memory packages
memory =
    texts ("first" ∷ "second" ∷ [])
    ∷ texts ("cpu" ∷ [])
    ∷ configs (
        record {
          type_meta = zero_type;
          metadata = zero_meta;
          spec = record {
            placements_namespace = "placements";
            placements = some 0;
            default_resources = some 1;
            invalid_hostname_patterns = none;
          };
          status = tt;
        }
        ∷ [])
    ∷ []

abbrev pointer : Option (ConfigListVar packages)
pointer = some (record { type_meta = zero_type; metadata = tt; items = some 2 })

pointer-IsInside : IsInside packages (read_pointer packages copies) pointer memory
pointer-IsInside later = refl

list_deep_copy_object-IsFresh_example :
    IsFresh packages
      (list_deep_copy_object packages copies.copy_meta copies.copy_list_meta copies.copy_resources)
      (read_pointer packages copies)
      pointer
      memory
list_deep_copy_object-IsFresh_example =
    list_deep_copy_object-IsFresh packages copies pointer memory pointer-IsInside
