-- ===== src/Weights/Shortcut.antt =====
-- The loops over the routes of pkg/config/configType.go without an annotation for weights, and on
-- their own results.
use text.Mathlib.TextLemmas.{cons-append}
use envoy_control_plane.Prelude.{
  String, true, false, Option, none, some, List, [], ◌∷◌, ok, ok-injective, traverse,
  traverse_twice, traverse_id, >>=-eq-ok, ◌≡◌, refl, ap, arith, any, eq_iff,
}
use envoy_control_plane.Prelude.Texts.{join_text, has_prefix}
use envoy_control_plane.Prelude.Maps.{Map, lookup}
use envoy_control_plane.Envoy.{WeightedCluster, Route, VirtualHost, RouteConfiguration}
use envoy_control_plane.Config.{ConfigType}
use envoy_control_plane.Weights.{
  annotation_route_cluster_weight, has_cluster_weights, ClusterWeight, get_cluster_weight,
  with_weight, mutate_cluster, mutate_weighted, mutate_route, mutate_virtual_host,
  mutate_weighted_route_configuration,
}

has_prefix-join_text : (p s : String) → has_prefix (join_text p s) p ≡ true
unfolding has_prefix
has_prefix-join_text String.[] s = refl
has_prefix-join_text (String.◌∷◌ c p) s = rw cons-append (ground (arith, has_prefix-join_text p s))

missing_key :
    (p name : String) (m : Map String)
    → any (λ e. has_prefix e.0 p) m ≡ false
    → lookup (join_text p name) m ≡ none
unfolding lookup
missing_key p name [] h = refl
missing_key p name ((k, v) ∷ m) h =
    ground (arith, has_prefix-join_text p name, eq_iff k (join_text p name), missing_key p name m)

-- A body leaves its results alone: the weights are compared before they are written.
with_weight_twice :
    (o : Option ClusterWeight) (c : WeightedCluster)
    → with_weight o (with_weight o c) ≡ with_weight o c
with_weight_twice none c = refl
with_weight_twice (some w) c = ground arith

name-with_weight :
    (o : Option ClusterWeight) (c : WeightedCluster) → (with_weight o c).name ≡ c.name
name-with_weight none c = refl
name-with_weight (some w) c = ground arith

module _ (config : ConfigType) where
  mutate_cluster_twice :
      (c d : WeightedCluster) → mutate_cluster config c ≡ ok d → mutate_cluster config d ≡ ok d
  unfolding mutate_cluster
  mutate_cluster_twice c d h =
      let (o, p, q) = >>=-eq-ok (get_cluster_weight config c.name) _ h in
      rw (← ok-injective q, name-with_weight o c, p) (ap ok (with_weight_twice o c))

  mutate_weighted_twice :
      (o p : Option (List WeightedCluster))
      → mutate_weighted config o ≡ ok p
      → mutate_weighted config p ≡ ok p
  mutate_weighted_twice none p h = rw (← ok-injective h)
  mutate_weighted_twice (some cs) p h =
      let (ds, s, t) = >>=-eq-ok (traverse (mutate_cluster config) cs) _ h in
      rw (
        ← ok-injective t,
        mutate_weighted,
        traverse_twice (mutate_cluster config) cs mutate_cluster_twice s,
      )

  mutate_route_twice : (r s : Route) → mutate_route config r ≡ ok s → mutate_route config s ≡ ok s
  unfolding mutate_route
  mutate_route_twice r s h =
      let (cs, p, q) = >>=-eq-ok (mutate_weighted config r.weighted_clusters) _ h in
      rw (← ok-injective q, mutate_weighted_twice r.weighted_clusters cs p)

  mutate_virtual_host_twice :
      (v w : VirtualHost)
      → mutate_virtual_host config v ≡ ok w
      → mutate_virtual_host config w ≡ ok w
  unfolding mutate_virtual_host
  mutate_virtual_host_twice v w h =
      let (rs, p, q) = >>=-eq-ok (traverse (mutate_route config) v.routes) _ h in
      rw (← ok-injective q, traverse_twice (mutate_route config) v.routes mutate_route_twice p)

  -- Overriding the weights of a configuration whose weights were overridden changes nothing.
  pub mutate_weighted_twice_lem :
      (r s : RouteConfiguration)
      → mutate_weighted_route_configuration config r ≡ ok s
      → mutate_weighted_route_configuration config s ≡ ok s
  unfolding mutate_weighted_route_configuration
  mutate_weighted_twice_lem r s h =
      let (vs, p, q) = >>=-eq-ok (traverse (mutate_virtual_host config) r.virtual_hosts) _ h in
      rw (
        ← ok-injective q,
        traverse_twice (mutate_virtual_host config) r.virtual_hosts mutate_virtual_host_twice p,
      )

  module _ (unweighted : has_cluster_weights config ≡ false) where
    mutate_cluster_id : (c : WeightedCluster) → mutate_cluster config c ≡ ok c
    unfolding mutate_cluster get_cluster_weight has_cluster_weights
    mutate_cluster_id c = rw (
        missing_key annotation_route_cluster_weight c.name config.config_map_annotations unweighted)

    mutate_weighted_id : (o : Option (List WeightedCluster)) → mutate_weighted config o ≡ ok o
    mutate_weighted_id none = refl
    mutate_weighted_id (some cs) = rw (traverse_id (mutate_cluster config) cs mutate_cluster_id)

    mutate_route_id : (r : Route) → mutate_route config r ≡ ok r
    unfolding mutate_route
    mutate_route_id r = simp (mutate_weighted_id r.weighted_clusters)

    mutate_virtual_host_id : (v : VirtualHost) → mutate_virtual_host config v ≡ ok v
    unfolding mutate_virtual_host
    mutate_virtual_host_id v = simp (traverse_id (mutate_route config) v.routes mutate_route_id)

    -- Without an annotation with the prefix of the weights, one configuration of routes stays as it
    -- is, and overriding its weights does not fail.
    pub mutate_weighted_id_lem :
        (r : RouteConfiguration) → mutate_weighted_route_configuration config r ≡ ok r
    unfolding mutate_weighted_route_configuration
    mutate_weighted_id_lem r =
        simp (traverse_id (mutate_virtual_host config) r.virtual_hosts mutate_virtual_host_id)
