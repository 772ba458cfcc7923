-- ===== src/Examples.antt =====
-- A concrete node, and concrete stands-ins for the packages outside the repository, on which the
-- theorems are applied: one pod that runs and is ready, an object with a selector and one with a
-- service, and a snapshot cache that is an association list.
mod Saving
mod Serving
mod Stores
mod Histories
mod Routing
mod Web
mod Issuing
mod Tools
mod Streams
mod Programs
mod Loaded
mod Mutual
mod Kubernetes
mod Selecting
use envoy_control_plane.Prelude.{
  ℕ, String, Bool, true, false, Option, none, some, List, [], ◌∷◌, Result, ok, err, Error, message,
  ◌≡◌, refl, ◌==◌, eq_refl, eq_iff, arith, ok-injective, ◌≢◌, ◌∙◌,
}
use envoy_control_plane.Prelude.Texts.{has_prefix}
use envoy_control_plane.Prelude.Maps.{
  Map, lookup, insert, delete, get, lookup-insert, lookup-delete,
}
use envoy_control_plane.Kube.{
  Pod, PodCondition, Node, Endpoints, EndpointSubset, EndpointAddress, Listers,
}
use envoy_control_plane.Envoy.{
  Packed, Resource, cluster, route_configuration, cluster_load_assignment, listener, secret,
}
use envoy_control_plane.Config.{KubernetesType, ConfigType, Settings, Yaml, default_settings}
use envoy_control_plane.Resources.{Codec}
use envoy_control_plane.Loading.{Templates, new_config}
use envoy_control_plane.Publish.{Runtime}
use envoy_control_plane.Secrets.{Issuer}
use envoy_control_plane.Xds.{Xds, IsCache, by_name}
use envoy_control_plane.ConfigStore.{ConfigStore}
use envoy_control_plane.ConfigStore.Create.{initial}

unfoldable pub settings : Settings
unfolding default_settings
settings = default_settings (λ _. "")

unfoldable pub runtime : Runtime
unfolding has_prefix
runtime = record { parse_ip = λ s. has_prefix s "10."; range = λ m. m }

abbrev pub pod : Pod
pod = record {
  name = "web-1";
  namespace = "shop";
  labels = some (("app", "web") ∷ []);
  pod_ip = "10.0.0.7";
  node_name = "n1";
  phase = "Running";
  conditions = record { condition_type = "Ready"; status = "True" } ∷ [];
  is_deleted = false;
}

abbrev pub web_endpoints : Endpoints
web_endpoints = record {
  name = "web";
  annotations = [];
  subsets =
      record {
        addresses = record { ip = "10.0.0.8"; node_name = some "n1"; target_ref = none } ∷ [];
      }
      ∷ [];
}

abbrev pub listers : Listers
listers = record {
  list_pods = λ _. ok (pod ∷ []);
  get_pod = λ _ _. ok (some pod);
  get_node = λ n. ok (record { name = n; labels = ("topology.kubernetes.io/zone", "z1") ∷ [] });
  list_endpoints = ok (web_endpoints ∷ []);
}

abbrev pub selecting : KubernetesType
selecting = record {
  cluster_name = "web";
  namespace = "shop";
  port = 80;
  health_check_port = 0;
  priority = 0;
  selector = some (("app", "web") ∷ []);
  service = "";
}

abbrev pub naming : KubernetesType
naming = record selecting { cluster_name = "shop"; selector = none; service = "web" }

abbrev pub config : ConfigType
config = record new_config {
  id = "front";
  name = "front";
  config_map_name = "envoy";
  config_map_namespace = "shop";
  config_map_annotations = ("envoy-control-plane/routes.cluster.weight.web", "30") ∷ [];
  kubernetes = selecting ∷ naming ∷ [];
}

abbrev pub store : ConfigStore
store = initial config []

abbrev pub codec : Codec
codec = record {
  marshal_list = λ _. ok "[]";
  unmarshal_list = λ _. ok [];
  get_json_from_yaml = λ _. ok "{}";
  unmarshal_cluster = λ s. ok (record { rest = s });
  unmarshal_route = λ s. ok (record { virtual_hosts = []; rest = s });
  unmarshal_endpoint = λ s. ok (record { cluster_name = s; endpoints = [] });
  unmarshal_listener =
      λ s. ok (record { filter_chains = []; default_filter_chain = none; rest = s });
  unmarshal_secret = λ _. err (message "no secret");
  unpack_manager = λ p. ok (record { route_config = none; rest = p.value });
  pack_manager = λ m. ok (record { type_url = "manager"; value = m.rest });
  unpack_tls = λ p. ok (record { require_client_certificate = none; rest = p.value });
  pack_tls = λ t. ok (record { type_url = "tls"; value = t.rest });
}

abbrev pub issuer : Issuer
issuer = record {
  new_certificate = λ _ _. ok ("chain", "key");
  root_cert_bytes = "root";
  to_json = λ _. ok "{}";
  unmarshal_validation = λ s. ok (record { trusted_ca = none; rest = s });
}

abbrev pub templates : Templates
templates = record {
  parses = λ _ _. true;
  execute = λ _ text. ok text;
  unmarshal_config = λ _ c. ok (record config { config_map_name = "" });
}

-- GetResourceName, where the name of a resource is all that is carried along.
abbrev resource_name : Resource → String
resource_name (cluster r) = r.rest
resource_name (route_configuration r) = r.rest
resource_name (cluster_load_assignment r) = r.cluster_name
resource_name (listener r) = r.rest
resource_name (secret r) = r.name

unfoldable pub xds : Xds
unfolding lookup insert delete get
xds = record {
  Snapshot = String × Map (List Resource);
  Cache = Map (String × Map (List Resource));
  new_snapshot = λ v m. ok (v, m);
  get_version = λ s _. s.0;
  resource_name = resource_name;
  get_resource = λ s t n. by_name resource_name n (get [] t s.1);
  set_snapshot = λ c n s. (insert n s c, none);
  get_snapshot = λ c n. lookup n c;
  clear_snapshot = λ c n. delete n c;
}

pub unequal : (s t : String) → s ≢ t → (s == t) ≡ false
unequal s t ne = ground (arith, eq_iff s t)

xds-version :
    {v : String} {m : Map (List Resource)} {s : String × Map (List Resource)} {rs : List Resource}
    (t : String)
    → Path (Result (String × Map (List Resource))) (ok (v, m)) (ok s)
    → lookup t m ≡ some rs
    → (s.0 ≡ v)
      × ((n : String) → by_name resource_name n (get [] t s.1) ≡ by_name resource_name n rs)
unfolding get
xds-version t h p = rw (← ok-injective h) (refl, λ n. rw p refl)

pub xds-IsCache : IsCache xds
unfolding lookup insert delete xds
xds-IsCache = record {
  version = λ {v} {m} {s} {rs} t h p. xds-version t h p;
  get_set_self = λ c n s. lookup-insert n n s c ∙ rw (eq_refl n) refl;
  get_set_ne = λ c n k s ne. lookup-insert n k s c ∙ rw (unequal n k ne) refl;
  get_clear_self = λ c n. lookup-delete n n c ∙ rw (eq_refl n) refl;
  get_clear_ne = λ c n k ne. lookup-delete n k c ∙ rw (unequal n k ne) refl;
}
