-- ===== src/Endpoints/Answers.antt =====
-- When `getLocalityLbEndpoints` of pkg/configstore/configStore.go returns no error.
use envoy_control_plane.Prelude.{
  String, true, false, some, List, [], ◌∷◌, ok, ◌≡◌, ◌∙◌, ap, refl, Bool-cases, Option-cases, inl,
  inr, ◌==◌,
}
use envoy_control_plane.Prelude.Texts.{join_text}
use envoy_control_plane.Prelude.Maps.{Map}
use envoy_control_plane.Kube.{Pod, Endpoints, Listers}
use envoy_control_plane.Config.{KubernetesType, ConfigType, Settings}
use envoy_control_plane.Api.{canary_suffix, list_pods, get_endpoint, find_endpoint}
use envoy_control_plane.Endpoints.{get_envoy_locality_lb_endpoint}
use envoy_control_plane.Endpoints.Listing.{
  LbMap, pod_endpoint, add_pods, add_found, from_selectors, from_service, from_services,
  get_locality_lb_endpoints,
}

module _ (c : Settings) (l : Listers)
    (pods : (s : Map String) → (ps : List Pod) × (l.list_pods s ≡ ok ps)) (es : List Endpoints)
    (answer : l.list_endpoints ≡ ok es) where
  from_selectors_total :
      (ks : List KubernetesType) (m : LbMap) → (n : LbMap) × (from_selectors c l ks m ≡ ok n)
  unfolding from_selectors list_pods pod_endpoint get_envoy_locality_lb_endpoint
  from_selectors_total [] m = (m, refl)
  from_selectors_total (k ∷ ks) m = elim (Option-cases k.selector) [
    | inl e ↦ let (n, p) = from_selectors_total ks m in (n, rw (from_selectors, e) p)
    | inr (s, e) ↦
        let (ps, a) = pods s in
        let (n, p) = from_selectors_total ks (add_pods c l k ps m) in
        (n, rw (from_selectors, e, a) p)
  ]

  get_endpoint_total : (name : String) → get_endpoint l name ≡ ok (find_endpoint name es)
  unfolding get_endpoint
  get_endpoint_total name = rw answer refl

  from_service_total :
      (k : KubernetesType) (m : LbMap) → (n : LbMap) × (from_service c l k m ≡ ok n)
  unfolding from_service
  from_service_total k m = elim (Option-cases (find_endpoint k.service es)) [
    | inl e ↦ (m, rw (get_endpoint_total k.service ∙ ap ok e) refl)
    | inr (s, e) ↦
        let canary : String = join_text k.service canary_suffix in
        (
          add_found c l true k (find_endpoint canary es) (add_found c l false k (some s) m),
          rw (get_endpoint_total k.service ∙ ap ok e, get_endpoint_total canary) refl,
        )
  ]

  from_services_total :
      (ks : List KubernetesType) (m : LbMap) → (n : LbMap) × (from_services c l ks m ≡ ok n)
  unfolding from_services
  from_services_total [] m = (m, refl)
  from_services_total (k ∷ ks) m = elim (Bool-cases (k.service == "")) [
    | inl e ↦ let (n, p) = from_services_total ks m in (n, rw (from_services, e) p)
    | inr e ↦
        let (found, q) = from_service_total k m in
        let (n, p) = from_services_total ks found in (n, rw (from_services, e, q) p)
  ]

  -- When the lister of pods answers every selector and the lister of endpoints answers,
  -- `getLocalityLbEndpoints` returns a map and no error.
  pub get_locality_lb_endpoints_total :
      (config : ConfigType) → (m : LbMap) × (get_locality_lb_endpoints c l config ≡ ok m)
  unfolding get_locality_lb_endpoints
  get_locality_lb_endpoints_total config =
      let (selected, p) = from_selectors_total config.kubernetes [] in
      let (m, q) = from_services_total config.kubernetes selected in (m, rw (p, q) refl)
