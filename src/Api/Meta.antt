-- ===== src/Api/Meta.antt =====
-- metav1.TypeMeta, metav1.ObjectMeta and names.
use rcs_ocm_deployer.Common.{ℕ, String, Option, none, List, []}
use rcs_ocm_deployer.Common.Dict.{Dict}

-- `types.NamespacedName`, also the content of a `ctrl.Request`
pub record NamespacedName : Type 0 where
  pub name : String
  pub namespace : String

pub record TypeMeta : Type 0 where
  pub api_version : String
  pub kind : String

pub record ObjectMeta : Type 0 where
  pub name : String
  pub namespace : String
  pub resource_version : String
  pub labels : Option (Dict String)
  pub annotations : Option (Dict String)
  pub finalizers : List String
  pub deletion_timestamp : Option ℕ

-- `metav1.ObjectMeta{}`
abbrev pub zero_meta : ObjectMeta
zero_meta = record {
  name = "";
  namespace = "";
  resource_version = "";
  labels = none;
  annotations = none;
  finalizers = [];
  deletion_timestamp = none;
}

abbrev pub zero_type : TypeMeta
zero_type = record { api_version = ""; kind = "" }
