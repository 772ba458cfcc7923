-- ===== src/Publish.antt =====
-- `saveLastEndpoints` of pkg/configstore/configStore.go, up to the lock: the merge of the
-- endpoints and the loops that build what is published.
pub mod Lines
pub mod Order
use envoy_control_plane.Prelude.{
  String, Bool, true, false, Option, none, some, List, [], ◌∷◌, ◌++◌, ok, err, if◌then◌else◌,
}
use envoy_control_plane.Prelude.Texts.{join_text}
use envoy_control_plane.Prelude.Decimal.{decimal}
use envoy_control_plane.Prelude.Sorting.{sort}
use envoy_control_plane.Prelude.Maps.{append_at}
use envoy_control_plane.Kube.{Listers}
use envoy_control_plane.Envoy.{LbEndpoint, LocalityLbEndpoints, Resource, cluster_load_assignment}
use envoy_control_plane.Config.{ConfigType, Settings}
use envoy_control_plane.Endpoints.Listing.{LbMap, get_locality_lb_endpoints}

-- What the run-time decides: `parse_ip s` is `net.ParseIP(s) != nil`, and `range m` is the map
-- in the order in which one `range` over it meets the entries.
pub record Runtime : Type 0 where
  pub parse_ip : String → Bool
  pub range : LbMap → LbMap

-- `for key, value := range endpoints` into the copy of the endpoints of the configuration. The append
-- makes a new list here, where the source may write behind the end of a slice of the configuration.
unfoldable pub merge_endpoints : LbMap → LbMap → LbMap
unfolding append_at
merge_endpoints lb_endpoints [] = lb_endpoints
merge_endpoints lb_endpoints ((key, value) ∷ endpoints) =
    merge_endpoints (append_at key value lb_endpoints) endpoints

-- `publishEp`, `publishEpArray` and `isInvalidIP`.
pub record Published : Type 0 where
  pub publish_ep : List Resource
  pub publish_ep_array : List String
  pub is_invalid_ip : Bool

abbrev bar : String → String → String
bar s t = join_text s (join_text "|" t)

-- `%s|%s|%d|%s|%d|%d`
unfoldable pub format_endpoint : String → LocalityLbEndpoints → LbEndpoint → String
format_endpoint cluster_name value1 value2 = bar cluster_name (
    bar value1.locality.zone (
      bar (decimal value1.priority)
        (bar value2.address (bar (decimal value2.port_value) (decimal value2.health_check_port)))))

module _ (r : Runtime) where
  unfoldable pub publish_locality :
      String → LocalityLbEndpoints → List LbEndpoint → Published → Published
  publish_locality cluster_name value1 [] p = p
  publish_locality cluster_name value1 (value2 ∷ rest) p =
      publish_locality cluster_name value1 rest (record p {
        publish_ep_array = p.publish_ep_array ++ format_endpoint cluster_name value1 value2 ∷ [];
        is_invalid_ip = if r.parse_ip value2.address then p.is_invalid_ip else true;
      })

  unfoldable pub publish_localities : String → List LocalityLbEndpoints → Published → Published
  unfolding publish_locality
  publish_localities cluster_name [] p = p
  publish_localities cluster_name (value1 ∷ rest) p =
      publish_localities cluster_name rest
        (publish_locality cluster_name value1 value1.lb_endpoints p)

  unfoldable pub publish_clusters : LbMap → Published → Published
  unfolding publish_localities
  publish_clusters [] p = p
  publish_clusters ((cluster_name, ep) ∷ rest) p =
      let q = publish_localities cluster_name ep p in
      publish_clusters rest (record q {
        publish_ep =
            q.publish_ep
            ++ cluster_load_assignment (record { cluster_name = cluster_name; endpoints = ep })
              ∷ [];
      })

  abbrev pub nothing_published : Published
  nothing_published = record { publish_ep = []; publish_ep_array = []; is_invalid_ip = false }

  -- The part of `saveLastEndpoints` before the lock, after the listers have answered: `none` is
  -- the early return for an invalid address.
  unfoldable pub collect_found : LbMap → LbMap → Option Published
  unfolding merge_endpoints publish_clusters sort
  collect_found config_endpoints endpoints =
      let p =
        publish_clusters (r.range (merge_endpoints config_endpoints endpoints)) nothing_published in
      if p.is_invalid_ip
      then none
      else some (record p { publish_ep_array = sort p.publish_ep_array })

  -- `none` is an early return, for an error of the listers or an invalid address.
  unfoldable pub collect : Settings → Listers → ConfigType → LbMap → Option Published
  collect c l config config_endpoints = elim (get_locality_lb_endpoints c l config) [
    | ok endpoints ↦ collect_found config_endpoints endpoints
    | err e ↦ none
  ]
