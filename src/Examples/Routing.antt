-- ===== src/Examples/Routing.antt =====
-- The theorems on weights of clusters, at one route configuration.
use envoy_control_plane.Prelude.{
  ℕ, false, Option, none, some, [], ◌∷◌, ok, ◌≡◌, refl, map, List, inl, inr,
}
use envoy_control_plane.Envoy.{
  RouteConfiguration, Listener, Resource, listener, route_configuration,
}
use envoy_control_plane.Loading.{new_config, override_weights}
use envoy_control_plane.Weights.{
  has_cluster_weights, mutate_weighted_route_configuration, mutate_weighted_routes,
  mutate_weighted_routes_in_listeners,
}
use envoy_control_plane.Weights.Effect.{weights_of, target, weights_of-mutate}
use envoy_control_plane.Resources.{Codec}
use envoy_control_plane.Loading.Unweighted.{override_weights_id}
use envoy_control_plane.Examples.{config, codec}

abbrev routes_with : Option ℕ → RouteConfiguration
routes_with w = record {
  virtual_hosts =
      record {
        routes =
            record {
              weighted_clusters = some (
                  record { name = "web"; weight = w; rest = "" }
                  ∷ record { name = "api"; weight = some 5; rest = "" }
                  ∷ []);
              rest = "";
            }
            ∷ [];
        rest = "";
      }
      ∷ [];
  rest = "";
}

-- The annotation of the configuration gives `web` the weight 30.
overridden :
    mutate_weighted_route_configuration config (routes_with none) ≡ ok (routes_with (some 30))
unfolding mutate_weighted_route_configuration
overridden = refl

weights_of-mutate_example :
    weights_of (routes_with (some 30)) ≡ map (target config) (weights_of (routes_with none))
weights_of-mutate_example =
    weights_of-mutate config (routes_with none) (routes_with (some 30)) overridden

unweighted : has_cluster_weights new_config ≡ false
unfolding has_cluster_weights
unweighted = refl

-- A codec that finds the routes in a manager, and a listener with one that is packed as it was.
abbrev routes_codec : Codec
routes_codec = record codec {
  unpack_manager = λ p. ok (record { route_config = some (routes_with none); rest = p.value });
}

abbrev front : Listener
front = record {
  filter_chains =
      record {
        filters =
            record {
              name = "envoy.filters.network.http_connection_manager";
              typed_config = record { type_url = "manager"; value = "front" };
            }
            ∷ record {
              name = "envoy.filters.network.tcp_proxy";
              typed_config = record { type_url = "tcp"; value = "" };
            }
            ∷ [];
        transport_socket = none;
        rest = "";
      }
      ∷ [];
  default_filter_chain = none;
  rest = "front";
}

abbrev listeners : List Resource
listeners = listener front ∷ []

abbrev routes : List Resource
routes = route_configuration (routes_with none) ∷ []

override_weights_id_example :
    (mutate_weighted_routes_in_listeners routes_codec new_config listeners ≡ ok listeners)
    × (mutate_weighted_routes new_config routes ≡ ok routes)
    × (override_weights routes_codec new_config listeners routes ≡ ok (listeners, routes))
override_weights_id_example =
    override_weights_id routes_codec new_config unweighted listeners routes
      (
        (
          front,
          refl,
          (
            (
              inr (record { route_config = some (routes_with none); rest = "front" }, refl, refl),
              (inl refl, tt),
            ),
            tt,
          ),
        ),
        tt,
      )
      ((routes_with none, refl), tt)
