-- ===== src/Config.antt =====
-- pkg/config: the settings of the process (`Type`) and the configuration of one Envoy node
-- (`ConfigType`).
use envoy_control_plane.Prelude.{
  ℕ, ◌*◌, String, Bool, true, false, Option, none, some, List, Result, ok, err, Error, message,
  wrapped, ◌>>◌, ◌==◌, if◌then◌else◌,
}
use envoy_control_plane.Prelude.Maps.{Map}
use envoy_control_plane.Prelude.Texts.{join_text}
use envoy_control_plane.Envoy.{Resource}

-- A value that `yaml.v3` decodes into an `interface{}`.
mutual
  pub data Yaml : Type 0 where
    null : Yaml
    scalar : String → Yaml
    sequence : Items → Yaml
    mapping : Fields → Yaml

  pub data Items : Type 0 where
    nil : Items
    item : Yaml → Items → Items

  pub data Fields : Type 0 where
    end : Fields
    field : String → Yaml → Fields → Fields

pub record KubernetesType : Type 0 where
  pub cluster_name : String
  pub namespace : String
  pub port : ℕ
  pub health_check_port : ℕ
  pub priority : ℕ
  pub selector : Option (Map String)
  pub service : String

-- The last four fields are the parsed resources.
pub record ConfigType : Type 0 where
  pub id : String
  pub name : String
  pub use_version_label : Bool
  pub version_label_key : String
  pub version_label : String
  pub config_map_name : String
  pub config_map_namespace : String
  pub config_map_annotations : Map String
  pub kubernetes : List KubernetesType
  pub endpoints : List Yaml
  pub routes : List Yaml
  pub clusters : List Yaml
  pub listeners : List Yaml
  pub secrets : List Yaml
  pub validation : Option Yaml
  pub parsed_clusters : List Resource
  pub parsed_routes : List Resource
  pub parsed_listeners : List Resource
  pub parsed_secrets : List Resource

abbrev pub get_clusters : ConfigType → List Resource
get_clusters c = c.parsed_clusters

abbrev pub get_routes : ConfigType → List Resource
get_routes c = c.parsed_routes

abbrev pub get_listeners : ConfigType → List Resource
get_listeners c = c.parsed_listeners

abbrev pub get_secrets : ConfigType → List Resource
get_secrets c = c.parsed_secrets

-- Durations are in milliseconds.
pub record Settings : Type 0 where
  pub grace_period : ℕ
  pub log_level : String
  pub log_pretty : Bool
  pub log_access : Bool
  pub log_path : String
  pub log_report_caller : Bool
  pub config_file : String
  pub config_map_labels : String
  pub config_map_names : String
  pub kube_config_file : String
  pub watch_namespaced : Bool
  pub leader_election : Bool
  pub pod_name : String
  pub namespace : String
  pub grpc_address : String
  pub web_http_address : String
  pub web_https_address : String
  pub node_zone_label : String
  pub config_drain_period : ℕ
  pub endpoint_check_period : ℕ
  pub sentry_dsn : String
  pub ssl_name : String
  pub ssl_crt : String
  pub ssl_key : String
  pub ssl_do_not_use_validation : Bool
  pub ssl_rotation_period : ℕ
  pub web_admin_user : String
  pub web_admin_password : String

-- `r` is the value of the variable in the environment, "" if it is not set.
unfoldable pub get_env_default : (r default_value : String) → String
get_env_default r default_value =
    if default_value == "" then r else if r == "" then default_value else r

-- `gitVersion` is set by the linker.
abbrev pub git_version : String
git_version = "dev"

-- The values of the flags when none is given; `env` is the environment.
unfoldable pub default_settings : (String → String) → Settings
unfolding get_env_default
default_settings env = record {
  grace_period = 5 * 1000;
  log_level = "INFO";
  log_pretty = false;
  log_access = false;
  log_path = "/tmp";
  log_report_caller = true;
  config_file = get_env_default (env "CONFIG") "config.yaml";
  config_map_labels = "app=envoy-control-plane";
  config_map_names = "";
  kube_config_file = "";
  watch_namespaced = true;
  leader_election = true;
  pod_name = env "MY_POD_NAME";
  namespace = get_env_default (env "MY_POD_NAMESPACE") "default";
  grpc_address = ":18080";
  web_http_address = ":18082";
  web_https_address = ":18081";
  node_zone_label = "topology.kubernetes.io/zone";
  config_drain_period = 5 * 1000;
  endpoint_check_period = 60 * 1000;
  sentry_dsn = "";
  ssl_name = "envoy_control_plane_default";
  ssl_crt = "";
  ssl_key = "";
  ssl_do_not_use_validation = false;
  ssl_rotation_period = 60 * 60 * 1000;
  web_admin_user = "admin";
  web_admin_password = git_version;
}

-- `os.Stat` of a path: `some e` if `os.IsNotExist` holds of its error `e`.
check_file : (String → Option Error) → String → String → Result (Unit {0})
check_file missing path text =
    if path == ""
    then ok tt
    else elim (missing path) [ none ↦ ok tt | some e ↦ wrapped text (err e) ]

unfoldable pub check_config : (String → Option Error) → Settings → Result (Unit {0})
unfolding check_file
check_config missing c = do
  if c.watch_namespaced
      then (if c.namespace == ""
          then err (message "use namespace name if using namespaced")
          else ok tt)
      else ok tt
  check_file missing c.ssl_crt "ssl certificate error"
  check_file missing c.ssl_key "ssl key error"

-- `read_file` is os.ReadFile, and `unmarshal` is yaml.Unmarshal into settings that hold the flags. A
-- file that cannot be read leaves the flags.
unfoldable pub load :
    (read_file : String → Result String) (unmarshal : String → Settings → Result Settings)
    → Settings
    → Result Settings
load read_file unmarshal c = elim (read_file c.config_file) [
  | err e ↦ ok c
  | ok config_byte ↦ unmarshal config_byte c
]

-- `String`: `marshal` is yaml.Marshal, and `format` prints an error with the verb of a Boolean.
unfoldable pub to_text :
    (marshal : Settings → Result String) (format : Error → String) → Settings → String
to_text marshal format c = elim (marshal c) [
  | err e ↦ join_text "ERROR: " (format e)
  | ok out ↦ out
]
