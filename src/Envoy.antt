-- ===== src/Envoy.antt =====
-- The Envoy resources (github.com/envoyproxy/go-control-plane), as far as the program reads or
-- builds them. A field `rest` stands for the fields of a message that the program only carries
-- along. A getter of a missing sub-message returns the zero value, which is what such a field
-- holds here: an endpoint without a socket address has the address "" and the port 0.
use envoy_control_plane.Prelude.{ℕ, String, Bool, Option, List}
use envoy_control_plane.Prelude.Maps.{Map}

-- google.protobuf.Any: a packed message.
pub record Packed : Type 0 where
  pub type_url : String
  pub value : String

-- google.protobuf.Value, the two kinds that are used.
pub data Value : Type 0 where
  bool_value : Bool → Value
  string_value : String → Value

pub record Locality : Type 0 where
  pub zone : String

pub record LbEndpoint : Type 0 where
  pub filter_metadata : Map (Map Value)
  pub address : String
  pub port_value : ℕ
  pub health_check_port : ℕ

pub record LocalityLbEndpoints : Type 0 where
  pub locality : Locality
  pub priority : ℕ
  pub lb_endpoints : List LbEndpoint

pub record ClusterLoadAssignment : Type 0 where
  pub cluster_name : String
  pub endpoints : List LocalityLbEndpoints

-- A wrapped `UInt32Value` that may be missing.
pub record WeightedCluster : Type 0 where
  pub name : String
  pub weight : Option ℕ
  pub rest : String

-- `weighted_clusters` is `none` if the action is no route or names one cluster.
pub record Route : Type 0 where
  pub weighted_clusters : Option (List WeightedCluster)
  pub rest : String

pub record VirtualHost : Type 0 where
  pub routes : List Route
  pub rest : String

pub record RouteConfiguration : Type 0 where
  pub virtual_hosts : List VirtualHost
  pub rest : String

pub record HttpConnectionManager : Type 0 where
  pub route_config : Option RouteConfiguration
  pub rest : String

-- `require_client_certificate` is a wrapped `BoolValue`.
pub record DownstreamTlsContext : Type 0 where
  pub require_client_certificate : Option Bool
  pub rest : String

pub record Filter : Type 0 where
  pub name : String
  pub typed_config : Packed

pub record TransportSocket : Type 0 where
  pub name : String
  pub typed_config : Packed

pub record FilterChain : Type 0 where
  pub filters : List Filter
  pub transport_socket : Option TransportSocket
  pub rest : String

pub record Listener : Type 0 where
  pub filter_chains : List FilterChain
  pub default_filter_chain : Option FilterChain
  pub rest : String

pub record Cluster : Type 0 where
  pub rest : String

pub record CertificateValidationContext : Type 0 where
  pub trusted_ca : Option String
  pub rest : String

pub data SecretType : Type 0 where
  tls_certificate : (certificate_chain private_key : String) → SecretType
  validation_context : CertificateValidationContext → SecretType
  other : String → SecretType

pub record Secret : Type 0 where
  pub name : String
  pub secret_type : SecretType

-- types.Resource: a pointer to one of the messages.
pub data Resource : Type 0 where
  cluster : Cluster → Resource
  route_configuration : RouteConfiguration → Resource
  cluster_load_assignment : ClusterLoadAssignment → Resource
  listener : Listener → Resource
  secret : Secret → Resource
