-- ===== src/Endpoints/Listing.antt =====
-- `getLocalityLbEndpoints` of pkg/configstore/configStore.go: the endpoints of every cluster.
use envoy_control_plane.Prelude.{
  Bool, true, false, not, ◌&&◌, Option, none, some, List, [], ◌∷◌, Result, ok, wrapped, ◌>>=◌, ◌==◌,
  if◌then◌else◌,
}
use envoy_control_plane.Prelude.Texts.{join_text}
use envoy_control_plane.Prelude.Maps.{Map, append_at}
use envoy_control_plane.Kube.{Pod, EndpointAddress, EndpointSubset, Endpoints, Listers}
use envoy_control_plane.Envoy.{LocalityLbEndpoints}
use envoy_control_plane.Config.{KubernetesType, ConfigType, Settings}
use envoy_control_plane.Api.{canary_suffix, list_pods, get_endpoint}
use envoy_control_plane.Endpoints.{
  set_node, get_envoy_locality_lb_endpoint, is_pod_ready, get_envoy_meta_from_pod,
  get_envoy_meta_from_endpoint,
}

abbrev pub LbMap : Type 0
LbMap = Map (List LocalityLbEndpoints)

-- The three tests of the loop over the pods that are no `continue`.
unfoldable pub is_candidate : Pod → Bool
is_candidate pod =
    not (pod.pod_ip == "") && not (pod.node_name == "") && not pod.is_deleted && is_pod_ready pod

module _ (c : Settings) (l : Listers) where
  unfoldable pub pod_endpoint : KubernetesType → Pod → LocalityLbEndpoints
  pod_endpoint kubernetes pod = get_envoy_locality_lb_endpoint c l (record {
    is_canary = false;
    node = pod.node_name;
    address = pod.pod_ip;
    item = kubernetes;
    metadata = get_envoy_meta_from_pod pod;
  })

  unfoldable pub add_pods : KubernetesType → List Pod → LbMap → LbMap
  unfolding append_at
  add_pods kubernetes [] m = m
  add_pods kubernetes (pod ∷ pods) m = add_pods kubernetes pods (
      if is_candidate pod
      then append_at kubernetes.cluster_name (pod_endpoint kubernetes pod ∷ []) m
      else m)

  -- The first loop: the objects with a selector.
  unfoldable pub from_selectors : List KubernetesType → LbMap → Result LbMap
  unfolding add_pods
  from_selectors [] m = ok m
  from_selectors (kubernetes ∷ rest) m = elim kubernetes.selector [
    | none ↦ from_selectors rest m
    | some selector ↦ wrapped "error getting pods" (list_pods l selector) >>= λ pods.
        from_selectors rest (add_pods kubernetes pods m)
  ]

  unfoldable pub address_endpoint : Bool → KubernetesType → EndpointAddress → LocalityLbEndpoints
  unfolding set_node
  address_endpoint is_canary kubernetes address = get_envoy_locality_lb_endpoint c l (
      set_node address (record {
        is_canary = is_canary;
        node = "";
        address = address.ip;
        item = kubernetes;
        metadata = get_envoy_meta_from_endpoint l address;
      }))

  unfoldable pub add_addresses : Bool → KubernetesType → List EndpointAddress → LbMap → LbMap
  unfolding append_at
  add_addresses is_canary kubernetes [] m = m
  add_addresses is_canary kubernetes (address ∷ addresses) m =
      add_addresses is_canary kubernetes addresses
        (append_at kubernetes.cluster_name (address_endpoint is_canary kubernetes address ∷ []) m)

  unfoldable pub add_subsets : Bool → KubernetesType → List EndpointSubset → LbMap → LbMap
  unfolding add_addresses
  add_subsets is_canary kubernetes [] m = m
  add_subsets is_canary kubernetes (subset ∷ subsets) m =
      add_subsets is_canary kubernetes subsets
        (add_addresses is_canary kubernetes subset.addresses m)

  -- The endpoints of a service that was found or not.
  abbrev pub add_found : Bool → KubernetesType → Option Endpoints → LbMap → LbMap
  add_found is_canary kubernetes none m = m
  add_found is_canary kubernetes (some endpoints) m =
      add_subsets is_canary kubernetes endpoints.subsets m

  -- One service, with the answers for it and for its canary service: its main endpoints and then,
  -- if it was found, those of the canary service.
  abbrev pub add_service :
      KubernetesType → Result (Option Endpoints) → Result (Option Endpoints) → LbMap → Result LbMap
  add_service kubernetes main canary m = do
    endpoints ← wrapped "error getting endpoints" main
    elim endpoints [
      | none ↦ ok m
      | some e ↦ wrapped "error getting endpoints" canary >>= λ endpoints_canary.
          ok (add_found true kubernetes endpoints_canary (add_found false kubernetes (some e) m))
    ]

  unfoldable pub from_service : KubernetesType → LbMap → Result LbMap
  unfolding add_subsets
  from_service kubernetes m =
      add_service kubernetes (get_endpoint l kubernetes.service)
        (get_endpoint l (join_text kubernetes.service canary_suffix)) m

  -- The second loop: the objects with a service name.
  unfoldable pub from_services : List KubernetesType → LbMap → Result LbMap
  unfolding from_service
  from_services [] m = ok m
  from_services (kubernetes ∷ rest) m = elim (kubernetes.service == "") [
    | true ↦ from_services rest m
    | false ↦ from_service kubernetes m >>= λ found. from_services rest found
  ]

  unfoldable pub get_locality_lb_endpoints : ConfigType → Result LbMap
  get_locality_lb_endpoints config = do
    selected ← from_selectors config.kubernetes []
    from_services config.kubernetes selected
