-- ===== src/Examples/Saving.antt =====
-- The theorems on what a store saves, at one node.
use mathlib.Core.List.Perm
use envoy_control_plane.Prelude.{true, Option, none, some, [], ◌∷◌, ok, err, ◌≡◌, ◌≢◌, ◌↔◌, refl}
use envoy_control_plane.Prelude.Maps.{get}
use envoy_control_plane.Kube.{Endpoints}
use envoy_control_plane.Api.{get_endpoint, list_pods}
use envoy_control_plane.Endpoints.{is_pod_ready, get_envoy_locality_lb_endpoint}
use envoy_control_plane.Api.Canary.{get_endpoint_first, FirstServing}
use envoy_control_plane.Endpoints.Listing.{
  LbMap, from_selectors, from_services, is_candidate, address_endpoint, pod_endpoint,
  get_locality_lb_endpoints,
}
use envoy_control_plane.Endpoints.Answers.{get_locality_lb_endpoints_total}
use envoy_control_plane.Endpoints.Contents.{expected, get-get_locality_lb_endpoints}
use envoy_control_plane.Publish.{Published, collect, collect_found, format_endpoint}
use envoy_control_plane.Prelude.Texts.{str_leb}
use envoy_control_plane.Prelude.Decimal.{decimal}
use envoy_control_plane.Publish.Lines.{array_of}
use envoy_control_plane.Publish.Order.{IsOrder, array_of-collect}
use envoy_control_plane.ConfigStore.{save_last_endpoints}
use envoy_control_plane.ConfigStore.Saving.{
  IsSaved, nothing, save_last_endpoints_in_step, save_last_endpoints-current,
}
use envoy_control_plane.Examples.{settings, runtime, listers, config, store, web_endpoints, pod}

save_last_endpoints_in_step_example :
    ((save_last_endpoints runtime settings listers store).0.config_endpoints ≡ [])
    × IsSaved runtime (save_last_endpoints runtime settings listers store).0
save_last_endpoints_in_step_example =
    save_last_endpoints_in_step runtime settings listers store refl (nothing refl refl)

-- The order in which the first two entries change places.
abbrev swapped : LbMap → LbMap
swapped (a ∷ b ∷ m) = b ∷ a ∷ m
swapped m = m

swapped-IsOrder : IsOrder swapped
swapped-IsOrder [] = Perm.refl []
swapped-IsOrder (a ∷ []) = Perm.refl (a ∷ [])
swapped-IsOrder (a ∷ b ∷ m) = Perm.swap a b m

runtime-IsOrder : IsOrder runtime.range
unfolding runtime
runtime-IsOrder m = Perm.refl m

array_of-collect_example :
    array_of (collect runtime settings listers config [])
    ≡ array_of (collect (record runtime { range = swapped }) settings listers config [])
array_of-collect_example =
    array_of-collect runtime swapped settings listers config [] runtime-IsOrder swapped-IsOrder

unfoldable found : LbMap
unfolding get_locality_lb_endpoints
found = elim (get_locality_lb_endpoints settings listers config) [ ok m ↦ m | err e ↦ [] ]

found_lem : get_locality_lb_endpoints settings listers config ≡ ok found
unfolding found get_locality_lb_endpoints from_selectors list_pods from_services get_endpoint
    is_candidate is_pod_ready settings
found_lem = refl

get-get_locality_lb_endpoints_example :
    get [] "web" found ≡ expected settings listers "web" config.kubernetes
get-get_locality_lb_endpoints_example =
    get-get_locality_lb_endpoints settings listers config found "web" found_lem

unfoldable pub published : Published
unfolding collect
published = elim (collect runtime settings listers config []) [
  | some p ↦ p
  | none ↦ record { publish_ep = []; publish_ep_array = []; is_invalid_ip = true }
]

pub published_lem : collect runtime settings listers config [] ≡ some published
unfolding published collect get_locality_lb_endpoints from_selectors list_pods from_services
    get_endpoint is_candidate is_pod_ready settings runtime collect_found address_endpoint
    get_envoy_locality_lb_endpoint pod_endpoint
published_lem = refl

lines_of-published :
    published.publish_ep_array ≡ "shop|z1|0|10.0.0.8|80|0" ∷ "web|z1|0|10.0.0.7|80|0" ∷ []
unfolding published collect get_locality_lb_endpoints from_selectors list_pods from_services
    get_endpoint is_candidate is_pod_ready settings runtime collect_found address_endpoint
    get_envoy_locality_lb_endpoint pod_endpoint str_leb format_endpoint decimal
lines_of-published = refl

save_last_endpoints-current_example :
    ((save_last_endpoints runtime settings listers store).0.last_endpoints_array
      ≡ some published.publish_ep_array)
    × (((save_last_endpoints runtime settings listers store).1 ≡ true)
        ↔ (store.last_endpoints_array ≢ some published.publish_ep_array))
save_last_endpoints-current_example =
    save_last_endpoints-current runtime settings listers store published published_lem

get_endpoint_first_example :
    (r : Option Endpoints) × (get_endpoint listers "web" ≡ ok r)
    × FirstServing "web" (web_endpoints ∷ []) r
get_endpoint_first_example = get_endpoint_first listers "web" (web_endpoints ∷ []) refl

get_locality_lb_endpoints_total_example :
    (m : LbMap) × (get_locality_lb_endpoints settings listers config ≡ ok m)
get_locality_lb_endpoints_total_example =
    get_locality_lb_endpoints_total settings listers (λ s. (pod ∷ [], refl)) (web_endpoints ∷ [])
      refl config
