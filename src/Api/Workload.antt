-- ===== src/Api/Workload.antt =====
-- The Capp, its pod template, and the RCSConfig. A quantity is only copied: its text stands for it.
use rcs_ocm_deployer.Common.{String, Option, List}
use rcs_ocm_deployer.Common.Dict.{Dict}
use rcs_ocm_deployer.Api.Meta.{TypeMeta, ObjectMeta}

-- `corev1.ResourceList`
abbrev pub ResourceList : Type 0
ResourceList = Dict String

-- `corev1.ResourceRequirements`
pub record Resources : Type 0 where
  pub limits : Option ResourceList
  pub requests : Option ResourceList

-- `corev1.EnvFromSource`, by the names that its references hold
pub record EnvFromSource : Type 0 where
  pub config_map_ref : Option String
  pub secret_ref : Option String

-- `corev1.EnvVarSource`
pub record EnvVarSource : Type 0 where
  pub config_map_key_ref : Option String
  pub secret_key_ref : Option String

-- `corev1.EnvVar`
pub record EnvVar : Type 0 where
  pub name : String
  pub value_from : Option EnvVarSource

-- `corev1.Container`
pub record Container : Type 0 where
  pub name : String
  pub env_from : List EnvFromSource
  pub env : List EnvVar
  pub resources : Resources

-- `corev1.VolumeProjection`, by the names that it holds
pub record VolumeProjection : Type 0 where
  pub config_map : Option String
  pub secret : Option String

-- `corev1.Volume`, by the names that its sources hold; `projected` is `Projected.Sources`. The
-- sources of other kinds (`CSI`, `CephFS` and so on), which the code does not read, are left out.
pub record Volume : Type 0 where
  pub name : String
  pub config_map : Option String
  pub secret : Option String
  pub projected : List VolumeProjection

-- `capp.Spec.ConfigurationSpec.Template.Spec`
pub record PodSpec : Type 0 where
  pub init_containers : List Container
  pub containers : List Container
  pub volumes : List Volume
  pub image_pull_secrets : List String

-- `cappv1alpha1.LogSpec`
pub record LogSpec : Type 0 where
  pub type : String
  pub host : String
  pub index : String
  pub user : String
  pub password_secret : String

-- `cappv1alpha1.LogSpec{}`
abbrev pub zero_log : LogSpec
zero_log = record { type = ""; host = ""; index = ""; user = ""; password_secret = "" }

-- `cappv1alpha1.CappSpec`; `hostname` and `tls_secret` are `Hostname` and `TlsSecret` of `RouteSpec`
pub record CappSpec : Type 0 where
  pub site : String
  pub hostname : String
  pub tls_secret : String
  pub pod : PodSpec
  pub log_spec : LogSpec

-- `cappv1alpha1.Capp`; `status_site` is `Status.ApplicationLinks.Site`
pub record Capp : Type 0 where
  pub type_meta : TypeMeta
  pub metadata : ObjectMeta
  pub open metadata use *
  pub spec : CappSpec
  pub status_site : String

-- `RCSConfigSpec`
pub record RcsConfigSpec : Type 0 where
  pub placements_namespace : String
  pub placements : List String
  pub default_resources : Resources
  pub invalid_hostname_patterns : Option (List String)

-- `RCSConfigStatus`, which has no fields
abbrev pub RcsConfigStatus : Type 0
RcsConfigStatus = Unit {0}

-- `RCSConfig`
pub record RcsConfig : Type 0 where
  pub type_meta : TypeMeta
  pub metadata : ObjectMeta
  pub spec : RcsConfigSpec
  pub status : RcsConfigStatus
