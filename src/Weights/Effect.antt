-- ===== src/Weights/Effect.antt =====
-- What the annotations do to the weights of a route configuration.
use mathlib.Core.List.{flat_map}
use envoy_control_plane.Prelude.{
  ℕ, ◌%◌, ◌^◌, String, Option, none, some, List, [], ◌∷◌, map, ok, ok-injective, traverse,
  traverse_parts, >>=-eq-ok, ◌>>=◌, ◌≡◌, ap, arith, Option-cases, inl, inr,
}
use envoy_control_plane.Prelude.Texts.{join_text, parse_uint}
use envoy_control_plane.Prelude.Maps.{lookup, or_zero}
use envoy_control_plane.Envoy.{WeightedCluster, Route, VirtualHost, RouteConfiguration}
use envoy_control_plane.Config.{ConfigType}
use envoy_control_plane.Weights.{
  annotation_route_cluster_weight, parse_weight, get_cluster_weight, with_weight, mutate_cluster,
  mutate_weighted, mutate_route, mutate_virtual_host, mutate_weighted_route_configuration,
}

-- The name and the weight of every weighted cluster, in order; a missing weight is 0.
abbrev pub cluster_weight : WeightedCluster → String × ℕ
cluster_weight c = (c.name, or_zero 0 c.weight)

abbrev pub weights_of_clusters : Option (List WeightedCluster) → List (String × ℕ)
weights_of_clusters none = []
weights_of_clusters (some cs) = flat_map (λ c. cluster_weight c ∷ []) cs

unfoldable pub weights_of_route : Route → List (String × ℕ)
weights_of_route r = weights_of_clusters r.weighted_clusters

unfoldable pub weights_of_host : VirtualHost → List (String × ℕ)
unfolding weights_of_route
weights_of_host v = flat_map weights_of_route v.routes

unfoldable pub weights_of : RouteConfiguration → List (String × ℕ)
unfolding weights_of_host
weights_of r = flat_map weights_of_host r.virtual_hosts

-- The number of an annotation, if there is one and it is a number.
abbrev pub parsed : Option String → Option ℕ
parsed none = none
parsed (some w) = parse_uint w

abbrev pub override : Option ℕ → ℕ → ℕ
override none w = w
override (some i) w = i % 2 ^ 32

with_weight-override :
    (i : ℕ) (c : WeightedCluster)
    → cluster_weight (with_weight (some (record { value = i })) c) ≡ (c.name, i % 2 ^ 32)
with_weight-override i c = ground arith

parse_weight-override :
    (o : Option String) (c d : WeightedCluster)
    → (parse_weight o >>= λ w. ok (with_weight w c)) ≡ ok d
    → cluster_weight d ≡ (c.name, override (parsed o) (or_zero 0 c.weight))
parse_weight-override none c d h = rw (← ok-injective h)
parse_weight-override (some w) c d h = elim (Option-cases (parse_uint w)) [
  | inl e ↦ cc (e, h)
  | inr (i, e) ↦ rw (← ok-injective (rw (e, parse_weight) at h), e) (with_weight-override i c)
]

module _ (config : ConfigType) where
  -- The weight that a cluster is to have: the annotation's, modulo 2 ^ 32, or its own.
  unfoldable pub target : String × ℕ → String × ℕ
  target (name, w) = (
    name,
    override
        (parsed
          (lookup (join_text annotation_route_cluster_weight name) config.config_map_annotations))
        w,
  )

  mutate_cluster-target :
      (c d : WeightedCluster)
      → mutate_cluster config c ≡ ok d
      → cluster_weight d ∷ [] ≡ map target (cluster_weight c ∷ [])
  unfolding mutate_cluster target get_cluster_weight
  mutate_cluster-target c d h =
      ap (λ e. e ∷ [])
        (parse_weight-override
          (lookup (join_text annotation_route_cluster_weight c.name) config.config_map_annotations)
          c d h)

  mutate_weighted-target :
      (o p : Option (List WeightedCluster))
      → mutate_weighted config o ≡ ok p
      → weights_of_clusters p ≡ map target (weights_of_clusters o)
  mutate_weighted-target none p h = rw (← ok-injective h)
  mutate_weighted-target (some cs) p h =
      let (ds, s, t) = >>=-eq-ok (traverse (mutate_cluster config) cs) _ h in
      rw (← ok-injective t) (
        traverse_parts (mutate_cluster config) (λ c. cluster_weight c ∷ []) target cs
          mutate_cluster-target s)

  mutate_route-target :
      (r s : Route)
      → mutate_route config r ≡ ok s
      → weights_of_route s ≡ map target (weights_of_route r)
  unfolding mutate_route weights_of_route
  mutate_route-target r s h =
      let (cs, p, q) = >>=-eq-ok (mutate_weighted config r.weighted_clusters) _ h in
      rw (← ok-injective q) (mutate_weighted-target r.weighted_clusters cs p)

  mutate_virtual_host-target :
      (v w : VirtualHost)
      → mutate_virtual_host config v ≡ ok w
      → weights_of_host w ≡ map target (weights_of_host v)
  unfolding mutate_virtual_host weights_of_host
  mutate_virtual_host-target v w h =
      let (rs, p, q) = >>=-eq-ok (traverse (mutate_route config) v.routes) _ h in
      rw (← ok-injective q) (
        traverse_parts (mutate_route config) weights_of_route target v.routes mutate_route-target p)

  -- When `mutateWeightedRouteConfiguration` succeeds, every weighted cluster, in its place, has
  -- the weight that its annotation gives, modulo 2 ^ 32, or the weight that it had if it has no
  -- annotation; no cluster is added, dropped or renamed.
  pub weights_of-mutate :
      (r s : RouteConfiguration)
      → mutate_weighted_route_configuration config r ≡ ok s
      → weights_of s ≡ map target (weights_of r)
  unfolding mutate_weighted_route_configuration weights_of
  weights_of-mutate r s h =
      let (vs, p, q) = >>=-eq-ok (traverse (mutate_virtual_host config) r.virtual_hosts) _ h in
      rw (← ok-injective q) (
        traverse_parts (mutate_virtual_host config) weights_of_host target r.virtual_hosts
          mutate_virtual_host-target p)
