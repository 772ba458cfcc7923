-- ===== src/Endpoints/Contents.antt =====
-- What `getLocalityLbEndpoints` returns, cluster by cluster: the loops against a description that
-- has no state.
use mathlib.Core.List.{flat_map, append_assoc, append-nil, map-append}
use envoy_control_plane.Prelude.{
  String, Bool, true, false, Option, none, some, List, [], ◌∷◌, ◌++◌, map, Result, ok, wrapped,
  wrapped-eq-ok, ok-injective, >>=-eq-ok, ◌==◌, ◌≡◌, refl, sym, ap, Bool-cases, Option-cases, inl,
  inr, if◌then◌else◌,
}
use envoy_control_plane.Prelude.Texts.{join_text}
use envoy_control_plane.Prelude.Maps.{Map, get, append_at, get-append_at}
use envoy_control_plane.Kube.{Pod, EndpointAddress, EndpointSubset, Endpoints, Listers}
use envoy_control_plane.Envoy.{LocalityLbEndpoints}
use envoy_control_plane.Config.{KubernetesType, ConfigType, Settings}
use envoy_control_plane.Api.{canary_suffix, list_pods, get_endpoint}
use envoy_control_plane.Endpoints.Listing.{
  LbMap, is_candidate, pod_endpoint, add_pods, from_selectors, address_endpoint, add_addresses,
  add_subsets, add_found, add_service, from_service, from_services, get_locality_lb_endpoints,
}

abbrev pub candidates : List Pod → List Pod
candidates [] = []
candidates (pod ∷ pods) = if is_candidate pod then pod ∷ candidates pods else candidates pods

abbrev pub answered {ℓ} : {A : Type ℓ} → A → Result A → A
answered z (ok a) = a
answered z _ = z

abbrev pub all_addresses : List EndpointSubset → List EndpointAddress
all_addresses [] = []
all_addresses (subset ∷ subsets) = subset.addresses ++ all_addresses subsets

abbrev pub addresses_of : Option Endpoints → List EndpointAddress
addresses_of none = []
addresses_of (some e) = all_addresses e.subsets

-- What counts for the cluster `j` of what an object adds under the name `k`.
pub for_cluster {ℓ} : {A : Type ℓ} → String → String → List A → List A
for_cluster j k vs = if k == j then vs else []

module _ (c : Settings) (l : Listers) where
  abbrev pub selected_by : KubernetesType → Option (Map String) → List LocalityLbEndpoints
  selected_by k none = []
  selected_by k (some s) = map (pod_endpoint c l k) (candidates (answered [] (list_pods l s)))

  -- The endpoints of the pods that one object selects.
  pub selected : KubernetesType → List LocalityLbEndpoints
  selected k = selected_by k k.selector

  -- The endpoints of a service that was found or not, and of its canary service.
  abbrev pub served_by :
      KubernetesType → Option Endpoints → Option Endpoints → List LocalityLbEndpoints
  served_by k none canary = []
  served_by k (some e) canary =
      map (address_endpoint c l false k) (all_addresses e.subsets)
      ++ map (address_endpoint c l true k) (addresses_of canary)

  -- The endpoints of the service that one object names: the canary service counts only beside a
  -- main service.
  pub served : KubernetesType → List LocalityLbEndpoints
  served k =
      if k.service == ""
      then []
      else served_by k (answered none (get_endpoint l k.service))
          (answered none (get_endpoint l (join_text k.service canary_suffix)))

  -- What a configuration asks for under a cluster name.
  pub expected : String → List KubernetesType → List LocalityLbEndpoints
  unfolding flat_map
  expected j ks =
      flat_map (λ k. for_cluster j k.cluster_name (selected k)) ks
      ++ flat_map (λ k. for_cluster j k.cluster_name (served k)) ks

for_cluster-nil {ℓ} : {A : Type ℓ} (j k : String) → for_cluster {A = A} j k [] ≡ []
unfolding for_cluster
for_cluster-nil j k = elim (Bool-cases (k == j)) [ inl e ↦ rw e | inr e ↦ rw e ]

for_cluster-append {ℓ} :
    {A : Type ℓ} (j k : String) (xs ys : List A)
    → for_cluster j k (xs ++ ys) ≡ for_cluster j k xs ++ for_cluster j k ys
unfolding for_cluster
for_cluster-append j k xs ys = elim (Bool-cases (k == j)) [ inl e ↦ rw e | inr e ↦ rw e ]

for_cluster-cons {ℓ} :
    {A : Type ℓ} (j k : String) (x : A) (xs : List A)
    → for_cluster j k (x ∷ xs) ≡ for_cluster j k (x ∷ []) ++ for_cluster j k xs
for_cluster-cons j k x xs = for_cluster-append j k (x ∷ []) xs

get-append_one :
    (j k : String) (v : LocalityLbEndpoints) (m : LbMap)
    → get [] j (append_at k (v ∷ []) m) ≡ get [] j m ++ for_cluster j k (v ∷ [])
unfolding for_cluster
get-append_one j k v m = elim (Bool-cases (k == j)) [
  | inl e ↦ rw (get-append_at, e) refl
  | inr e ↦ rw (get-append_at, e, append-nil) refl
]

module _ (c : Settings) (l : Listers) (j : String) where
  get-add_pods :
      (k : KubernetesType) (pods : List Pod) (m : LbMap)
      → get [] j (add_pods c l k pods m)
        ≡ get [] j m ++ for_cluster j k.cluster_name (map (pod_endpoint c l k) (candidates pods))
  unfolding add_pods
  get-add_pods k [] m = simp (for_cluster-nil, append-nil)
  get-add_pods k (pod ∷ pods) m = elim (Bool-cases (is_candidate pod)) [
    | inl e ↦
        rw (e, get-add_pods k pods, get-append_one, append_assoc)
          (ap (◌++◌ (get [] j m)) (sym (for_cluster-cons j k.cluster_name _ _)))
    | inr e ↦ rw e (get-add_pods k pods m)
  ]

  get-add_addresses :
      (b : Bool) (k : KubernetesType) (es : List EndpointAddress) (m : LbMap)
      → get [] j (add_addresses c l b k es m)
        ≡ get [] j m ++ for_cluster j k.cluster_name (map (address_endpoint c l b k) es)
  unfolding add_addresses
  get-add_addresses b k [] m = simp (for_cluster-nil, append-nil)
  get-add_addresses b k (a ∷ es) m =
      rw (get-add_addresses b k es, get-append_one, append_assoc)
        (ap (◌++◌ (get [] j m)) (sym (for_cluster-cons j k.cluster_name _ _)))

  get-add_subsets :
      (b : Bool) (k : KubernetesType) (ss : List EndpointSubset) (m : LbMap)
      → get [] j (add_subsets c l b k ss m)
        ≡ get [] j m
          ++ for_cluster j k.cluster_name (map (address_endpoint c l b k) (all_addresses ss))
  unfolding add_subsets
  get-add_subsets b k [] m = simp (for_cluster-nil, append-nil)
  get-add_subsets b k (s ∷ ss) m =
      rw (get-add_subsets b k ss, get-add_addresses b k s.addresses, map-append, for_cluster-append)
        (append_assoc (get [] j m) _ _)

  get-add_found :
      (b : Bool) (k : KubernetesType) (o : Option Endpoints) (m : LbMap)
      → get [] j (add_found c l b k o m)
        ≡ get [] j m
          ++ for_cluster j k.cluster_name (map (address_endpoint c l b k) (addresses_of o))
  get-add_found b k none m = simp (for_cluster-nil, append-nil)
  get-add_found b k (some e) m = get-add_subsets b k e.subsets m

  get-add_service :
      (k : KubernetesType) (main canary : Result (Option Endpoints)) (m n : LbMap)
      → add_service c l k main canary m ≡ ok n
      → get [] j n
        ≡ get [] j m
          ++ for_cluster j k.cluster_name
              (served_by c l k (answered none main) (answered none canary))
  get-add_service k (ok none) canary m n h =
      rw (← ok-injective h) (simp (for_cluster-nil, append-nil))
  get-add_service k (ok (some e)) (ok o) m n h =
      rw
        (
          ← ok-injective h,
          get-add_found true k o,
          get-add_found false k (some e),
          for_cluster-append,
        )
        (append_assoc (get [] j m) _ _)
  get-add_service k _ _ m n h = cc

  selected_lem :
      (k : KubernetesType) (o : Option (Map String))
      → k.selector ≡ o
      → selected c l k ≡ selected_by c l k o
  unfolding selected
  selected_lem k o e = ap (selected_by c l k) e

  get-from_selectors :
      (ks : List KubernetesType) (m n : LbMap)
      → from_selectors c l ks m ≡ ok n
      → get [] j n ≡ get [] j m ++ flat_map (λ k. for_cluster j k.cluster_name (selected c l k)) ks
  unfolding from_selectors flat_map
  get-from_selectors [] m n h = rw (← ok-injective h) (sym (append-nil _))
  get-from_selectors (k ∷ ks) m n h = elim (Option-cases k.selector) [
    | inl e ↦
        rw (selected_lem k none e, for_cluster-nil)
          (get-from_selectors ks m n (rw (e, from_selectors) at h))
    | inr (s, e) ↦
        let (pods, p, q) =
          >>=-eq-ok (wrapped "error getting pods" (list_pods l s)) _
            (rw (e, from_selectors) at h) in
        rw
          (
            selected_lem k (some s) e,
            wrapped-eq-ok _ _ p,
            get-from_selectors ks _ n q,
            get-add_pods k pods m,
          )
          (append_assoc (get [] j m) _ _)
  ]

  get-from_services :
      (ks : List KubernetesType) (m n : LbMap)
      → from_services c l ks m ≡ ok n
      → get [] j n ≡ get [] j m ++ flat_map (λ k. for_cluster j k.cluster_name (served c l k)) ks
  unfolding from_services flat_map served
  get-from_services [] m n h = rw (← ok-injective h) (sym (append-nil _))
  get-from_services (k ∷ ks) m n h = elim (Bool-cases (k.service == "")) [
    | inl e ↦ rw (e, for_cluster-nil) (get-from_services ks m n (rw (e, from_services) at h))
    | inr e ↦
        let (found, p, q) = >>=-eq-ok (from_service c l k m) _ (rw (e, from_services) at h) in
        rw
          (
            e,
            get-from_services ks found n q,
            get-add_service k _ _ m found (unfold from_service in p),
          )
          (append_assoc (get [] j m) _ _)
  ]

-- When it returns no error, `getLocalityLbEndpoints` returns under each cluster name exactly the
-- endpoints of the candidate pods that the objects of that name select, in order, followed by the
-- endpoints of the services that they name, those of a canary service after those of its main
-- service.
pub get-get_locality_lb_endpoints :
    (c : Settings) (l : Listers) (config : ConfigType) (m : LbMap) (j : String)
    → get_locality_lb_endpoints c l config ≡ ok m
    → get [] j m ≡ expected c l j config.kubernetes
unfolding get_locality_lb_endpoints get expected
get-get_locality_lb_endpoints c l config m j h =
    let (selected, p, q) = >>=-eq-ok (from_selectors c l config.kubernetes []) _ h in
    rw (
      get-from_services c l j config.kubernetes selected m q,
      get-from_selectors c l j config.kubernetes [] selected p,
    )
