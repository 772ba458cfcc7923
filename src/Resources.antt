-- ===== src/Resources.antt =====
-- pkg/resources/resources.go: the parsed resources of a section of a configuration.
pub mod Classes
use envoy_control_plane.Prelude.{String, List, [], ◌∷◌, Result, ok, err, message, wrapped, ◌>>=◌}
use envoy_control_plane.Envoy.{
  Packed, Cluster, RouteConfiguration, ClusterLoadAssignment, Listener, Secret, Resource,
  HttpConnectionManager, DownstreamTlsContext, cluster, route_configuration,
  cluster_load_assignment, listener, secret,
}
use envoy_control_plane.Config.{Yaml}

-- The encoders and decoders of packages outside the repository: YAML to JSON text and back to a
-- slice of values, protojson for each message, and anypb for the two packed messages.
pub record Codec : Type 0 where
  pub marshal_list : List Yaml → Result String
  pub unmarshal_list : String → Result (List Yaml)
  pub get_json_from_yaml : Yaml → Result String
  pub unmarshal_cluster : String → Result Cluster
  pub unmarshal_route : String → Result RouteConfiguration
  pub unmarshal_endpoint : String → Result ClusterLoadAssignment
  pub unmarshal_listener : String → Result Listener
  pub unmarshal_secret : String → Result Secret
  pub unpack_manager : Packed → Result HttpConnectionManager
  pub pack_manager : HttpConnectionManager → Result Packed
  pub unpack_tls : Packed → Result DownstreamTlsContext
  pub pack_tls : DownstreamTlsContext → Result Packed

-- The dynamic type of `outType`.
pub data OutType : Type 0 where
  cluster_class route_class endpoint_class listener_class secret_class other_class : OutType

module _ (k : Codec) where
  -- One round of the loop, with the JSON of the element.
  unfoldable pub unmarshal_resource : OutType → String → Result Resource
  unmarshal_resource cluster_class json = do
    resource ← wrapped "cluster.Cluster" (k.unmarshal_cluster json)
    ok (cluster resource)
  unmarshal_resource route_class json = do
    resource ← wrapped "route.RouteConfiguration" (k.unmarshal_route json)
    ok (route_configuration resource)
  unmarshal_resource endpoint_class json = do
    resource ← wrapped "endpoint.ClusterLoadAssignment" (k.unmarshal_endpoint json)
    ok (cluster_load_assignment resource)
  unmarshal_resource listener_class json = do
    resource ← wrapped "listener.Listener" (k.unmarshal_listener json)
    ok (listener resource)
  unmarshal_resource secret_class json = do
    resource ← wrapped "tls.Secret" (k.unmarshal_secret json)
    ok (secret resource)
  unmarshal_resource other_class json = err (message "unknown class")

  unfoldable pub to_resources : OutType → List Yaml → Result (List Resource)
  unfolding unmarshal_resource
  to_resources out_type [] = ok []
  to_resources out_type (v ∷ vs) = do
    json ← wrapped "utils.GetJSONfromYAML(v)" (k.get_json_from_yaml v)
    resource ← unmarshal_resource out_type json
    rest ← to_resources out_type vs
    ok (resource ∷ rest)

  unfoldable pub yaml_to_resources : List Yaml → OutType → Result (List Resource)
  unfolding to_resources
  yaml_to_resources [] out_type = ok []
  yaml_to_resources (y ∷ ys) out_type = do
    json_obj ← wrapped "json.Marshal(yamlObjJSON)" (k.marshal_list (y ∷ ys))
    resources ← wrapped "json.Unmarshal(jsonObj, &resources)" (k.unmarshal_list json_obj)
    to_resources out_type resources
