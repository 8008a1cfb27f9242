-- ===== src/Tests/Data.antt =====
-- Values for the runs: a Capp, the RCSConfig, the other objects, and the libraries.
use rcs_ocm_deployer.Common.{String, ◌<>◌, true, false, none, some, List, [], ◌∷◌, ◌==◌}
use rcs_ocm_deployer.Api.Meta.{NamespacedName, ObjectMeta, zero_meta, zero_type}
use rcs_ocm_deployer.Api.Workload.{Capp, zero_log, Container, Resources, RcsConfig}
use rcs_ocm_deployer.Api.Work.{ConfigMap, RoleBinding, ManifestWork}
use rcs_ocm_deployer.Runtime.Outcome.{done}
use rcs_ocm_deployer.Runtime.Client.{Externals}
use rcs_ocm_deployer.Webhooks.Admission.{
  Codec, create, Request, FieldErrors, HostChecks, dns_error, resolved,
}
use rcs_ocm_deployer.Utils.{has_placement_key}
use rcs_ocm_deployer.Tests.Server.{Objects}

abbrev pub externals : Externals
externals = record {
  quote = λ s. "\"" <> s <> "\"";
  capp_group_version = "rcs.dana.io/v1alpha1";
  core_version = "v1";
  placement_label = "cluster.open-cluster-management.io/placement";
  requirement_error = λ key value. none;
}

abbrev named : String → String → ObjectMeta
named name ns = record zero_meta { name = name; namespace = ns }

abbrev pub request : NamespacedName
request = record { name = "web"; namespace = "shop" }

abbrev pub container : Container
container = record {
  name = "main";
  env_from = record { config_map_ref = some "settings"; secret_ref = none } ∷ [];
  env =
      record {
        name = "KEY";
        value_from = some (record { config_map_key_ref = none; secret_key_ref = some "keys" });
      }
      ∷ [];
  resources = record { limits = none; requests = some (("cpu", "2") ∷ []) };
}

-- a Capp that is not placed
abbrev pub web : Capp
web = record {
  type_meta = zero_type;
  metadata = named "web" "shop";
  spec = record {
    site = "";
    hostname = "web.shop.example";
    tls_secret = "";
    pod = record {
      init_containers = [];
      containers = container ∷ [];
      volumes = [];
      image_pull_secrets = "pull" ∷ [];
    };
    log_spec = zero_log;
  };
  status_site = "";
}

-- the Capp when it is placed and has the finalizer
abbrev pub placed_web : Capp
placed_web = record web {
  metadata = record (named "web" "shop") {
    annotations = some ((has_placement_key, "cluster-1") ∷ []);
    finalizers = "dana.io/capp-cleanup" ∷ [];
  };
  status_site = "cluster-1";
}

-- the Capp when it is being deleted
abbrev pub deleted_web : Capp
deleted_web = record placed_web {
  metadata = record placed_web.metadata { deletion_timestamp = some 7 };
}

abbrev pub defaults : Resources
defaults = record {
  limits = some (("cpu", "1") ∷ []);
  requests = some (("cpu", "1") ∷ ("memory", "1Gi") ∷ []);
}

abbrev pub config : RcsConfig
config = record {
  type_meta = zero_type;
  metadata = named "rcs-config" "rcs-deployer-system";
  spec = record {
    placements_namespace = "";
    placements = "default-placement" ∷ [];
    default_resources = defaults;
    invalid_hostname_patterns = some ("internal" ∷ []);
  };
  status = tt;
}

abbrev pub admin_binding : RoleBinding
admin_binding = record {
  type_meta = zero_type;
  metadata = named "admins" "shop";
  subjects = record { kind = "User"; api_group = "rbac.authorization.k8s.io"; name = "dana" } ∷ [];
  role_ref = record {
    api_group = "rbac.authorization.k8s.io";
    kind = "ClusterRole";
    name = "admin";
  };
}

abbrev pub work : ManifestWork
work = record {
  type_meta = zero_type;
  metadata = named "mw-create-shop-web" "cluster-1";
  manifests = [];
  manifest_configs = [];
}

abbrev pub settings : ConfigMap
settings = record {
  type_meta = zero_type;
  metadata = named "settings" "shop";
  contents = some (("MODE", "fast") ∷ []);
  binary_contents = some (("logo", "iVBO") ∷ []);
}

abbrev pub objects : Objects
objects = record {
  config = done config;
  capps = web ∷ [];
  placements = "default-placement" ∷ [];
  decisions =
      done (record { items = record { decisions = "local-cluster" ∷ "cluster-1" ∷ [] } ∷ [] });
  works = [];
  config_maps = settings ∷ [];
  secrets =
      record {
        type_meta = zero_type;
        metadata = named "keys" "shop";
        contents = none;
        secret_type = "Opaque";
      }
      ∷ record {
        type_meta = zero_type;
        metadata = named "pull" "shop";
        contents = none;
        secret_type = "kubernetes.io/dockerconfigjson";
      }
      ∷ [];
  role_bindings = admin_binding ∷ [];
  clusters = "cluster-1" ∷ "cluster-2" ∷ [];
}

-- the Capp stands for its own raw form
abbrev pub codec : Codec
codec = record { Raw = Capp; decode_raw = λ raw. done raw; marshal = λ c. done c }

abbrev pub admission : Request codec
admission = record {
  operation = create;
  object = web;
  old_object = web;
  username = "system:serviceaccount:rcs-deployer-system:controller";
}

-- errors as a list of messages
abbrev pub field_errors : FieldErrors
field_errors = record {
  FieldError = List String;
  err_generic = λ message paths. message ∷ [];
  also = λ errs e. some e;
  text = λ e. "invalid";
}

-- every name is free but `taken.example`, and a pattern matches itself
abbrev pub host_checks : HostChecks
host_checks = record {
  not_qualified = λ name. none;
  compile = λ pattern. some (λ name. pattern == name);
  cluster_domain = "cluster.local";
  lookup_host = λ name. elim (name == "taken.example") [
    | true ↦ resolved
    | false ↦ dns_error true "no such host"
  ];
}
