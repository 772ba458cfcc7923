-- ===== src/Weights.antt =====
-- pkg/config/configType.go: the weights of clusters that the annotations of a ConfigMap override.
-- A loop that changes messages in place is a function to the new messages: after an error the
-- caller drops the configuration, so what was changed before it is not observed.
pub mod Effect
pub mod Shortcut
use envoy_control_plane.Prelude.{
  ℕ, ◌%◌, ◌^◌, String, Bool, true, false, not, ◌||◌, Option, none, some, List, [], ◌∷◌, Result, ok,
  err, message, wrap, wrapped, traverse, ◌>>=◌, ◌==◌, any, nat_beq, if◌then◌else◌,
}
use envoy_control_plane.Prelude.Texts.{join_text, has_prefix, parse_uint}
use envoy_control_plane.Prelude.Maps.{lookup, or_zero}
use envoy_control_plane.Envoy.{
  WeightedCluster, Route, VirtualHost, RouteConfiguration, HttpConnectionManager, Filter,
  FilterChain, Listener, Resource, route_configuration, listener,
}
use envoy_control_plane.Config.{ConfigType}
use envoy_control_plane.Resources.{Codec}

abbrev pub annotation_route_cluster_weight : String
annotation_route_cluster_weight = "envoy-control-plane/routes.cluster.weight."

unfoldable pub has_cluster_weights : ConfigType → Bool
unfolding has_prefix
has_cluster_weights c =
    any (λ e. has_prefix e.0 annotation_route_cluster_weight) c.config_map_annotations

-- The 64 bits of `Value`, an `int64`.
pub record ClusterWeight : Type 0 where
  pub value : ℕ

-- `strconv.ParseUint` of an annotation that was found or not.
abbrev pub parse_weight : Option String → Result (Option ClusterWeight)
parse_weight none = ok none
parse_weight (some w) = elim (parse_uint w) [
  | none ↦ err (wrap (message "strconv.ParseUint") "strconv.ParseUint")
  | some i ↦ ok (some (record { value = i }))
]

unfoldable pub get_cluster_weight : ConfigType → String → Result (Option ClusterWeight)
unfolding lookup parse_uint
get_cluster_weight c name =
    parse_weight (lookup (join_text annotation_route_cluster_weight name) c.config_map_annotations)

-- uint32(weight.Value)
abbrev pub to_uint32 : ℕ → ℕ
to_uint32 v = v % 2 ^ 32

-- The body of the loop over the weighted clusters, with the weight that was found.
abbrev pub with_weight : Option ClusterWeight → WeightedCluster → WeightedCluster
with_weight none c = c
with_weight (some w) c =
    if not (nat_beq (or_zero 0 c.weight) (to_uint32 w.value))
    then record c { weight = some (to_uint32 w.value) }
    else c

module _ (config : ConfigType) where
  unfoldable pub mutate_cluster : WeightedCluster → Result WeightedCluster
  unfolding get_cluster_weight
  mutate_cluster c = do weight ← get_cluster_weight config c.name; ok (with_weight weight c)

  -- `if wc := …; wc != nil`
  abbrev pub mutate_weighted :
      Option (List WeightedCluster) → Result (Option (List WeightedCluster))
  mutate_weighted none = ok none
  mutate_weighted (some cs) = do cs' ← traverse mutate_cluster cs; ok (some cs')

  unfoldable pub mutate_route : Route → Result Route
  unfolding mutate_cluster traverse
  mutate_route r = do
    cs ← mutate_weighted r.weighted_clusters
    ok (record r { weighted_clusters = cs })

  unfoldable pub mutate_virtual_host : VirtualHost → Result VirtualHost
  unfolding mutate_route
  mutate_virtual_host v = do rs ← traverse mutate_route v.routes; ok (record v { routes = rs })

  unfoldable pub mutate_weighted_route_configuration :
      RouteConfiguration → Result RouteConfiguration
  unfolding mutate_virtual_host
  mutate_weighted_route_configuration r = do
    vs ← traverse mutate_virtual_host r.virtual_hosts
    ok (record r { virtual_hosts = vs })

  -- The test `r == nil` of `mutateWeightedRouteConfiguration`.
  abbrev pub mutate_route_config : Option RouteConfiguration → Result (Option RouteConfiguration)
  mutate_route_config none = ok none
  mutate_route_config (some r) = do r' ← mutate_weighted_route_configuration r; ok (some r')

  unfoldable pub mutate_route_resource : Resource → Result Resource
  unfolding mutate_weighted_route_configuration
  mutate_route_resource (route_configuration r) = do
    r' ← wrapped "error mutateWeightedRouteConfiguration" (mutate_weighted_route_configuration r)
    ok (route_configuration r')
  mutate_route_resource _ = err (message "unknown class")

  unfoldable pub mutate_weighted_routes : List Resource → Result (List Resource)
  unfolding mutate_route_resource traverse
  mutate_weighted_routes routes = traverse mutate_route_resource routes

abbrev pub http_connection_manager : String
http_connection_manager = "envoy.filters.network.http_connection_manager"

module _ (k : Codec) (config : ConfigType) where
  unfoldable pub mutate_filter : Filter → Result Filter
  unfolding mutate_weighted_route_configuration
  mutate_filter f = if not (f.name == http_connection_manager) then ok f else (do
    m ← wrapped "error unmarshal to HttpConnectionManager" (k.unpack_manager f.typed_config)
    r ← wrapped "error mutateWeightedRouteConfiguration" (mutate_route_config config m.route_config)
    pbst ← wrapped "error anypb.New" (k.pack_manager (record m { route_config = r }))
    ok (record f { typed_config = pbst }))

  unfoldable pub mutate_filter_chain : FilterChain → Result FilterChain
  unfolding mutate_filter traverse
  mutate_filter_chain fc = do
    fs ← traverse mutate_filter fc.filters
    ok (record fc { filters = fs })

  unfoldable pub mutate_listener : Resource → Result Resource
  unfolding mutate_filter_chain
  mutate_listener (listener l) = do
    fcs ← traverse mutate_filter_chain l.filter_chains
    ok (listener (record l { filter_chains = fcs }))
  mutate_listener _ = err (message "unknown class")

  unfoldable pub mutate_weighted_routes_in_listeners : List Resource → Result (List Resource)
  unfolding mutate_listener
  mutate_weighted_routes_in_listeners listeners = traverse mutate_listener listeners
