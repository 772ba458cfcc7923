-- ===== src/Loading/Unweighted.antt =====
-- pkg/config/configType.go: the loops over listeners and routes that SaveResources skips.
use envoy_control_plane.Prelude.{
  ◌≡◌, refl, false, Option, none, some, List, ok, traverse_id_on, Bool-cases, inl, inr, ◌⊎◌, ◌==◌,
  All,
}
use envoy_control_plane.Envoy.{
  RouteConfiguration, HttpConnectionManager, Filter, FilterChain, Listener, Resource, listener,
  route_configuration,
}
use envoy_control_plane.Config.{ConfigType}
use envoy_control_plane.Resources.{Codec}
use envoy_control_plane.Weights.{
  has_cluster_weights, http_connection_manager, mutate_route_config, mutate_route_resource,
  mutate_weighted_routes, mutate_filter, mutate_filter_chain, mutate_listener,
  mutate_weighted_routes_in_listeners,
}
use envoy_control_plane.Weights.Shortcut.{mutate_weighted_id_lem}
use envoy_control_plane.Loading.{override_weights}

module _ (k : Codec) where
  -- A manager of HTTP connections can be read, and is packed as it was. Other filters are passed
  -- over.
  abbrev pub IsRepacked : Filter → Type 0
  IsRepacked f =
      ((f.name == http_connection_manager) ≡ false)
      ⊎ ((m : HttpConnectionManager) × (k.unpack_manager f.typed_config ≡ ok m)
          × (k.pack_manager m ≡ ok f.typed_config))

  abbrev pub IsRepackedChain : FilterChain → Type 0
  IsRepackedChain fc = All IsRepacked fc.filters

  abbrev pub IsRepackedListener : Resource → Type 0
  IsRepackedListener r = (l : Listener) × (r ≡ listener l) × All IsRepackedChain l.filter_chains

  abbrev pub IsRoute : Resource → Type 0
  IsRoute r = (c : RouteConfiguration) × (r ≡ route_configuration c)

  module _ (c : ConfigType) (unweighted : has_cluster_weights c ≡ false) where
    mutate_route_config_id : (o : Option RouteConfiguration) → mutate_route_config c o ≡ ok o
    mutate_route_config_id none = refl
    mutate_route_config_id (some r) = rw (mutate_weighted_id_lem c unweighted r)

    mutate_filter_id : (f : Filter) → IsRepacked f → mutate_filter k c f ≡ ok f
    unfolding mutate_filter
    mutate_filter_id f (inl other) = rw other
    mutate_filter_id f (inr (m, p, q)) = elim (Bool-cases (f.name == http_connection_manager)) [
      | inr other ↦ rw other
      | inl same ↦ rw (same, p, mutate_route_config_id m.route_config, q)
    ]

    mutate_filter_chain_id :
        (fc : FilterChain) → IsRepackedChain fc → mutate_filter_chain k c fc ≡ ok fc
    unfolding mutate_filter_chain
    mutate_filter_chain_id fc h =
        rw (traverse_id_on (mutate_filter k c) IsRepacked fc.filters mutate_filter_id h)

    mutate_listener_id : (r : Resource) → IsRepackedListener r → mutate_listener k c r ≡ ok r
    unfolding mutate_listener
    mutate_listener_id r (l, e, h) = rw (
      e,
      mutate_listener,
      traverse_id_on (mutate_filter_chain k c) IsRepackedChain l.filter_chains
          mutate_filter_chain_id h,
    )

    mutate_route_resource_id : (r : Resource) → IsRoute r → mutate_route_resource c r ≡ ok r
    unfolding mutate_route_resource
    mutate_route_resource_id r (rc, e) =
        rw (e, mutate_route_resource, mutate_weighted_id_lem c unweighted rc)

    -- Where no annotation has the prefix of the weights, every resource is of its class, and each
    -- HTTP manager of the listeners can be read and is packed as it was, the loops over the
    -- listeners and over the routes would succeed and change nothing: SaveResources, which skips
    -- them then, goes on with the resources that they would give.
    pub override_weights_id :
        (listeners routes : List Resource)
        → All IsRepackedListener listeners
        → All IsRoute routes
        → (mutate_weighted_routes_in_listeners k c listeners ≡ ok listeners)
          × (mutate_weighted_routes c routes ≡ ok routes)
          × (override_weights k c listeners routes ≡ ok (listeners, routes))
    unfolding mutate_weighted_routes_in_listeners mutate_weighted_routes override_weights
    override_weights_id listeners routes h g = (
      traverse_id_on (mutate_listener k c) IsRepackedListener listeners mutate_listener_id h,
      traverse_id_on (mutate_route_resource c) IsRoute routes mutate_route_resource_id g,
      rw unweighted refl,
    )
