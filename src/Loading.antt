-- ===== src/Loading.antt =====
-- pkg/config/configType.go: from the text of a ConfigMap to a configuration with its resources.
pub mod Classes
pub mod Filtered
pub mod Unweighted
use envoy_control_plane.Prelude.{
  String, Bool, false, Option, none, some, List, [], Result, ok, err, message, wrapped, traverse,
  Outcome, returns, panics, ◌>>=◌, ◌==◌, if◌then◌else◌,
}
use envoy_control_plane.Envoy.{
  DownstreamTlsContext, TransportSocket, FilterChain, Resource, listener,
}
use envoy_control_plane.Config.{ConfigType, Settings}
use envoy_control_plane.Resources.{
  Codec, cluster_class, route_class, listener_class, secret_class, yaml_to_resources,
}
use envoy_control_plane.Weights.{
  has_cluster_weights, mutate_weighted_routes, mutate_weighted_routes_in_listeners,
}

abbrev pub transport_socket_tls : String
transport_socket_tls = "envoy.transport_sockets.tls"

-- `if r.GetRequireClientCertificate() != nil { r.RequireClientCertificate.Value = false }`
abbrev pub not_required : DownstreamTlsContext → DownstreamTlsContext
not_required r = elim r.require_client_certificate [
  | none ↦ r
  | some _ ↦ record r { require_client_certificate = some false }
]

module _ (k : Codec) where
  unfoldable pub filter_socket : TransportSocket → Result TransportSocket
  filter_socket s =
      if s.name == transport_socket_tls
      then (do
        r ← k.unpack_tls s.typed_config
        pbst ← k.pack_tls (not_required r)
        ok (record s { typed_config = pbst }))
      else ok s

  abbrev pub filter_transport_socket : Option TransportSocket → Result (Option TransportSocket)
  filter_transport_socket none = ok none
  filter_transport_socket (some s) = do s' ← filter_socket s; ok (some s')

  unfoldable pub filter_chain : FilterChain → Result FilterChain
  unfolding filter_socket
  filter_chain fc = do
    s ← filter_transport_socket fc.transport_socket
    ok (record fc { transport_socket = s })

  unfoldable pub filter_listener : Resource → Result Resource
  unfolding filter_chain traverse
  filter_listener (listener l) = do
    fcs ← traverse filter_chain l.filter_chains
    ok (listener (record l { filter_chains = fcs }))
  filter_listener _ = err (message "unknown class")

  unfoldable pub filter_certificates : List Resource → Result (List Resource)
  unfolding filter_listener
  filter_certificates listiners = traverse filter_listener listiners

  -- The overrides of the weights, first in the listeners.
  unfoldable pub override_weights :
      ConfigType → List Resource → List Resource → Result (List Resource × List Resource)
  unfolding has_cluster_weights mutate_weighted_routes mutate_weighted_routes_in_listeners
  override_weights c listeners routes =
      if has_cluster_weights c
      then (do
        listeners' ←
            wrapped "errors in mutateWeightedRoutesInListeners"
              (mutate_weighted_routes_in_listeners k c listeners)
        routes' ← wrapped "errors in mutateWeightedRoutes" (mutate_weighted_routes c routes)
        ok (listeners', routes'))
      else ok (listeners, routes)

  unfoldable pub save_resources : Settings → ConfigType → Result ConfigType
  unfolding override_weights filter_certificates
  save_resources settings c = do
    clusters ← wrapped "error parsing clusters" (yaml_to_resources k c.clusters cluster_class)
    routes ← wrapped "error parsing routes" (yaml_to_resources k c.routes route_class)
    listeners ← wrapped "error parsing listeners" (yaml_to_resources k c.listeners listener_class)
    secrets ← wrapped "error parsing secrets" (yaml_to_resources k c.secrets secret_class)
    (listeners', routes') ← override_weights c listeners routes
    filtered ←
        if settings.ssl_do_not_use_validation
        then wrapped "errors in filterCertificates" (filter_certificates listeners')
        else ok listeners'
    ok (record c {
      parsed_clusters = clusters;
      parsed_routes = routes';
      parsed_listeners = filtered;
      parsed_secrets = secrets;
    })

-- `text/template` and `yaml.v3`: `parses id text` says whether `Parse` accepts the text,
-- `execute id text` is `ExecuteTemplate` of what it parsed, and `unmarshal_config text c` decodes
-- into a configuration that already holds `c`.
pub record Templates : Type 0 where
  pub parses : String → String → Bool
  pub execute : String → String → Result String
  pub unmarshal_config : String → ConfigType → Result ConfigType

-- The zero value of `ConfigType`, but for the key of the version label.
abbrev pub new_config : ConfigType
new_config = record {
  id = "";
  name = "";
  use_version_label = false;
  version_label_key = "version";
  version_label = "";
  config_map_name = "";
  config_map_namespace = "";
  config_map_annotations = [];
  kubernetes = [];
  endpoints = [];
  routes = [];
  clusters = [];
  listeners = [];
  secrets = [];
  validation = none;
  parsed_clusters = [];
  parsed_routes = [];
  parsed_listeners = [];
  parsed_secrets = [];
}

-- `template.Must` panics on a text that is no template.
unfoldable pub parse_config_yaml : Templates → String → String → Outcome (Result ConfigType)
parse_config_yaml t node_id text =
    if t.parses node_id text
    then returns (do
      tpl ← wrapped "templates.ExecuteTemplate" (t.execute node_id text)
      wrapped "yaml.Unmarshal" (t.unmarshal_config tpl new_config))
    else panics

-- ValidateConfig of pkg/config/config.go, where each error is fatal: it decodes the file as it is into
-- a zero value, which has no key of a version label.
unfoldable pub validate_config :
    (read_file : String → Result String) (unmarshal : String → ConfigType → Result ConfigType)
    → Codec
    → Settings
    → String
    → Outcome (Unit {0})
unfolding save_resources
validate_config read_file unmarshal k settings path =
    elim (do
      config_bytes ← read_file path
      config ← unmarshal config_bytes (record new_config { version_label_key = "" })
      save_resources k settings config) [ err e ↦ panics | ok saved ↦ returns tt ]
