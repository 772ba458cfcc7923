-- ===== src/Api.antt =====
-- pkg/api/informers.go: the lookups in the caches of the informers.
pub mod Canary
pub mod Client
use envoy_control_plane.Prelude.{
  String, Bool, true, false, not, ◌&&◌, Option, none, some, List, [], ◌∷◌, Result, ok, ◌>>=◌, ◌==◌,
  if◌then◌else◌,
}
use envoy_control_plane.Prelude.Maps.{Map, lookup}
use envoy_control_plane.Prelude.Texts.{has_suffix}
use envoy_control_plane.Kube.{Pod, Node, Endpoints, Listers}

abbrev pub canary_suffix : String
canary_suffix = "-canary"

abbrev pub annotation_canary_enabled : String
annotation_canary_enabled = "envoy-control-plane/canary.enabled"

unfoldable pub get_pod : Listers → String → String → Result (Option Pod)
get_pod l namespace name = l.get_pod namespace name

unfoldable pub list_pods : Listers → Map String → Result (List Pod)
list_pods l selector_set = l.list_pods selector_set

unfoldable pub get_node : Listers → String → Result Node
get_node l name = l.get_node name

-- `isEnabled, ok := …; ok && isEnabled == "true"`
abbrev is_true : Option String → Bool
is_true none = false
is_true (some v) = v == "true"

canary_enabled : Endpoints → Bool
unfolding lookup
canary_enabled endpoint = is_true (lookup annotation_canary_enabled endpoint.annotations)

-- The loop of `GetEndpoint` over the listed objects.
pub find_endpoint : String → List Endpoints → Option Endpoints
unfolding canary_enabled has_suffix
find_endpoint name [] = none
find_endpoint name (endpoint ∷ rest) =
    let found = find_endpoint name rest in
    if has_suffix name canary_suffix && not (canary_enabled endpoint)
    then found
    else if endpoint.name == name
    then some endpoint
    else found

unfoldable pub get_endpoint : Listers → String → Result (Option Endpoints)
unfolding find_endpoint
get_endpoint l name = do endpoints ← l.list_endpoints; ok (find_endpoint name endpoints)
