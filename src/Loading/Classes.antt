-- ===== src/Loading/Classes.antt =====
-- pkg/config/configType.go: the classes of the resources that SaveResources stores.
use envoy_control_plane.Prelude.{
  ◌≡◌, sym, ap, subst, List, ok, wrapped, traverse, >>=-eq-ok, wrapped-eq-ok, ok-injective,
  Bool-cases, inl, inr, arith, if◌then◌else◌,
}
use envoy_control_plane.Envoy.{
  Resource, cluster, route_configuration, cluster_load_assignment, listener, secret,
}
use envoy_control_plane.Config.{ConfigType, Settings}
use envoy_control_plane.Resources.{
  Codec, cluster_class, route_class, listener_class, secret_class, yaml_to_resources,
}
use envoy_control_plane.Weights.{
  has_cluster_weights, mutate_route_resource, mutate_weighted_routes, mutate_listener,
  mutate_weighted_routes_in_listeners, mutate_weighted_route_configuration, mutate_filter_chain,
}
use envoy_control_plane.Loading.{
  filter_chain, filter_listener, filter_certificates, override_weights, save_resources,
}
use envoy_control_plane.Resources.Classes.{class_of, AreOf, AreOf-traverse, yaml_to_resources-AreOf}

module _ (k : Codec) where
  filter_listener-class :
      (a b : Resource) → filter_listener k a ≡ ok b → class_of b ≡ listener_class
  unfolding filter_listener
  filter_listener-class (listener l) b h =
      let (fcs, _, q) = >>=-eq-ok (traverse (filter_chain k) l.filter_chains) _ h in
      ap class_of (sym (ok-injective q))
  filter_listener-class (cluster r) b h = ground (arith, h)
  filter_listener-class (route_configuration r) b h = ground (arith, h)
  filter_listener-class (cluster_load_assignment r) b h = ground (arith, h)
  filter_listener-class (secret r) b h = ground (arith, h)

  module _ (c : ConfigType) where
    mutate_listener-class :
        (a b : Resource) → mutate_listener k c a ≡ ok b → class_of b ≡ listener_class
    unfolding mutate_listener
    mutate_listener-class (listener l) b h =
        let (fcs, _, q) = >>=-eq-ok (traverse (mutate_filter_chain k c) l.filter_chains) _ h in
        ap class_of (sym (ok-injective q))
    mutate_listener-class (cluster r) b h = ground (arith, h)
    mutate_listener-class (route_configuration r) b h = ground (arith, h)
    mutate_listener-class (cluster_load_assignment r) b h = ground (arith, h)
    mutate_listener-class (secret r) b h = ground (arith, h)

    mutate_route_resource-class :
        (a b : Resource) → mutate_route_resource c a ≡ ok b → class_of b ≡ route_class
    unfolding mutate_route_resource
    mutate_route_resource-class (route_configuration r) b h =
        let (r', _, q) = >>=-eq-ok (wrapped _ (mutate_weighted_route_configuration c r)) _ h in
        ap class_of (sym (ok-injective q))
    mutate_route_resource-class (cluster r) b h = ground (arith, h)
    mutate_route_resource-class (listener r) b h = ground (arith, h)
    mutate_route_resource-class (cluster_load_assignment r) b h = ground (arith, h)
    mutate_route_resource-class (secret r) b h = ground (arith, h)

    override_weights-AreOf :
        (listeners routes : List Resource) {both : List Resource × List Resource}
        → AreOf listener_class listeners
        → AreOf route_class routes
        → override_weights k c listeners routes ≡ ok both
        → AreOf listener_class both.0 × AreOf route_class both.1
    unfolding override_weights mutate_weighted_routes mutate_weighted_routes_in_listeners
    override_weights-AreOf listeners routes {both} hl hr h =
        elim (Bool-cases (has_cluster_weights c)) [
          | inl e ↦
              let (ls, p, q) =
                >>=-eq-ok (wrapped _ (mutate_weighted_routes_in_listeners k c listeners)) _
                  (rw (override_weights, e) at h) in
              let (rs, r, s) = >>=-eq-ok (wrapped _ (mutate_weighted_routes c routes)) _ q in
              subst (λ b. AreOf listener_class b.0 × AreOf route_class b.1) (ok-injective s)
                (
                  AreOf-traverse (mutate_listener k c) listener_class listeners
                      mutate_listener-class (wrapped-eq-ok _ _ p),
                  AreOf-traverse (mutate_route_resource c) route_class routes
                      mutate_route_resource-class (wrapped-eq-ok _ _ r),
                )
          | inr e ↦
              subst (λ b. AreOf listener_class b.0 × AreOf route_class b.1)
                (ok-injective (rw (override_weights, e) at h)) (hl, hr)
        ]

  filtered-AreOf :
      (settings : Settings) (listeners : List Resource) {rs : List Resource}
      → AreOf listener_class listeners
      → (if settings.ssl_do_not_use_validation
          then wrapped "errors in filterCertificates" (filter_certificates k listeners)
          else ok listeners)
        ≡ ok rs
      → AreOf listener_class rs
  unfolding filter_certificates
  filtered-AreOf settings listeners hl h = elim (Bool-cases settings.ssl_do_not_use_validation) [
    | inl e ↦
        AreOf-traverse (filter_listener k) listener_class listeners filter_listener-class
          (wrapped-eq-ok _ _ (rw e at h))
    | inr e ↦ subst (AreOf listener_class) (ok-injective (rw e at h)) hl
  ]

  -- When SaveResources succeeds, with or without weights to override and certificates to filter,
  -- each section of the configuration holds resources of its own class alone: clusters, routes,
  -- listeners and secrets, which GetConfigSnapshot then stores under the type of that class.
  pub save_resources-AreOf :
      (settings : Settings) (c : ConfigType) {saved : ConfigType}
      → save_resources k settings c ≡ ok saved
      → AreOf cluster_class saved.parsed_clusters
        × AreOf route_class saved.parsed_routes
        × AreOf listener_class saved.parsed_listeners
        × AreOf secret_class saved.parsed_secrets
  unfolding save_resources
  save_resources-AreOf settings c h =
      let (clusters, p, h1) =
        >>=-eq-ok (wrapped _ (yaml_to_resources k c.clusters cluster_class)) _ h in
      let (routes, q, h2) = >>=-eq-ok (wrapped _ (yaml_to_resources k c.routes route_class)) _ h1 in
      let (listeners, r, h3) =
        >>=-eq-ok (wrapped _ (yaml_to_resources k c.listeners listener_class)) _ h2 in
      let (secrets, s, h4) =
        >>=-eq-ok (wrapped _ (yaml_to_resources k c.secrets secret_class)) _ h3 in
      let (both, t, h5) = >>=-eq-ok (override_weights k c listeners routes) _ h4 in
      let (filtered, u, h6) =
        >>=-eq-ok
          (if settings.ssl_do_not_use_validation
            then wrapped "errors in filterCertificates" (filter_certificates k both.0)
            else ok both.0)
          _ h5 in
      let (listeners_typed, routes_typed) =
        override_weights-AreOf c listeners routes
          (yaml_to_resources-AreOf k listener_class c.listeners (wrapped-eq-ok _ _ r))
          (yaml_to_resources-AreOf k route_class c.routes (wrapped-eq-ok _ _ q)) t in
      subst
        (λ d.
          AreOf cluster_class d.parsed_clusters
          × AreOf route_class d.parsed_routes
          × AreOf listener_class d.parsed_listeners
          × AreOf secret_class d.parsed_secrets)
        (ok-injective h6)
        (
          yaml_to_resources-AreOf k cluster_class c.clusters (wrapped-eq-ok _ _ p),
          routes_typed,
          filtered-AreOf settings both.0 listeners_typed u,
          yaml_to_resources-AreOf k secret_class c.secrets (wrapped-eq-ok _ _ s),
        )
