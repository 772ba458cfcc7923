-- ===== src/Endpoints.antt =====
-- pkg/configstore/configStore.go: the Envoy endpoints of the pods and of the services that a
-- configuration selects.
pub mod Answers
pub mod Listing
pub mod Contents
use envoy_control_plane.Prelude.{
  ℕ, String, Bool, true, false, ◌&&◌, Option, none, some, List, [], ◌∷◌, Result, ok, err, Error,
  wrapped, ◌>>=◌, ◌==◌, if◌then◌else◌, ltb, ◌||◌,
}
use envoy_control_plane.Prelude.Texts.{join_text}
use envoy_control_plane.Prelude.Maps.{Map, insert, get, append_at, or_zero}
use envoy_control_plane.Kube.{
  PodCondition, Pod, Node, ObjectReference, EndpointAddress, EndpointSubset, Endpoints, Listers,
}
use envoy_control_plane.Envoy.{
  Value, bool_value, string_value, Locality, LbEndpoint, LocalityLbEndpoints,
}
use envoy_control_plane.Config.{KubernetesType, ConfigType, Settings}
use envoy_control_plane.Api.{canary_suffix, get_pod, list_pods, get_node, get_endpoint}

abbrev pub default_zone : String
default_zone = "unknown"

abbrev pub envoy_meta_pod_name : String
envoy_meta_pod_name = "k8s.pod.name"

abbrev pub envoy_meta_pod_labels : String
envoy_meta_pod_labels = "k8s.pod.labels."

abbrev pub envoy_meta_endpoint_ip : String
envoy_meta_endpoint_ip = "k8s.endpoint.ip"

abbrev pub envoy_meta_node_name : String
envoy_meta_node_name = "k8s.node.name"

abbrev pub pod_label_ignore : String
pod_label_ignore = "pod-template-hash"

-- The zone of a node that was found or not.
zone_of : String → Result Node → String
unfolding get
zone_of label (ok node) =
    let zone = get "" label node.labels in if zone == "" then default_zone else zone
zone_of label _ = default_zone

unfoldable pub get_endpoint_locality : Settings → Listers → String → Locality
unfolding zone_of get_node
get_endpoint_locality c l node = record { zone = zone_of c.node_zone_label (get_node l node) }

pub record EnvoyEndpoint : Type 0 where
  pub is_canary : Bool
  pub node : String
  pub address : String
  pub item : KubernetesType
  pub metadata : Map String

unfoldable pub set_node : EndpointAddress → EnvoyEndpoint → EnvoyEndpoint
set_node address e = record e { node = or_zero e.node address.node_name }

-- `for k, v := range envoyEndpoint.Metadata`
add_metadata : Map String → Map Value → Map Value
unfolding insert
add_metadata [] fields = fields
add_metadata ((k, v) ∷ metadata) fields = add_metadata metadata (insert k (string_value v) fields)

unfoldable pub get_envoy_locality_lb_endpoint :
    Settings → Listers → EnvoyEndpoint → LocalityLbEndpoints
unfolding add_metadata get_endpoint_locality insert
get_envoy_locality_lb_endpoint c l e =
    let priority = if ltb 0 e.item.priority then e.item.priority else 0 in
    let health_check_port =
      if ltb 0 e.item.health_check_port then e.item.health_check_port else 0 in
    let endpoint_stage = if e.is_canary then "canary" else "main" in
    let fields =
      insert "stage" (string_value endpoint_stage) (insert "canary" (bool_value e.is_canary) []) in
    record {
      locality = get_endpoint_locality c l e.node;
      priority = priority;
      lb_endpoints =
          record {
            filter_metadata = ("envoy.lb", add_metadata e.metadata fields) ∷ [];
            address = e.address;
            port_value = e.item.port;
            health_check_port = health_check_port;
          }
          ∷ [];
    }

has_ready_condition : List PodCondition → Bool
has_ready_condition [] = false
has_ready_condition (c ∷ cs) =
    c.condition_type == "Ready" && c.status == "True" || has_ready_condition cs

unfoldable pub is_pod_ready : Pod → Bool
unfolding has_ready_condition
is_pod_ready pod = if pod.phase == "Running" then has_ready_condition pod.conditions else false

-- `for k, v := range pod.Labels`
add_labels : Map String → Map String → Map String
unfolding insert
add_labels [] labels = labels
add_labels ((k, v) ∷ rest) labels =
    add_labels rest (
      if k == pod_label_ignore then labels else insert (join_text envoy_meta_pod_labels k) v labels)

unfoldable pub get_envoy_meta_from_pod : Pod → Map String
unfolding add_labels
get_envoy_meta_from_pod pod = insert envoy_meta_node_name pod.node_name (
    insert envoy_meta_endpoint_ip pod.pod_ip
      (insert envoy_meta_pod_name pod.name (add_labels (or_zero [] pod.labels) [])))

-- The labels of the pod that `TargetRef` names; an error of the lister is logged.
target_labels : Result (Option Pod) → Map String
unfolding add_labels
target_labels (ok (some pod)) = add_labels (or_zero [] pod.labels) []
target_labels _ = []

target_metadata : Listers → Option ObjectReference → Map String
unfolding target_labels get_pod
target_metadata l none = []
target_metadata l (some ref) =
    if ref.kind == "Pod"
    then insert envoy_meta_pod_name ref.name (target_labels (get_pod l ref.namespace ref.name))
    else []

node_metadata : Option String → Map String → Map String
node_metadata none labels = labels
node_metadata (some node) labels = insert envoy_meta_node_name node labels

unfoldable pub get_envoy_meta_from_endpoint : Listers → EndpointAddress → Map String
unfolding target_metadata node_metadata
get_envoy_meta_from_endpoint l address =
    insert envoy_meta_endpoint_ip address.ip
      (node_metadata address.node_name (target_metadata l address.target_ref))
