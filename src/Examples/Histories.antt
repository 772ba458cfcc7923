-- ===== src/Examples/Histories.antt =====
-- The theorems on the history of the process (internal/internal.go), at a process with one ConfigMap.
use envoy_control_plane.Prelude.{Option, none, some, [], ◌∷◌, ◌≡◌, ◌⊎◌, refl, returns, true}
use envoy_control_plane.Config.{ConfigType}
use envoy_control_plane.Loading.{parse_config_yaml, save_resources}
use envoy_control_plane.Resources.{yaml_to_resources}
use envoy_control_plane.ConfigStore.Create.{new, get_config_endpoints}
use envoy_control_plane.Secrets.{new_secrets}
use envoy_control_plane.ConfigStore.{load_new_secrets, push, new_version, save_last_endpoints}
use envoy_control_plane.Publish.{collect, collect_found}
use envoy_control_plane.Endpoints.{is_pod_ready, get_envoy_locality_lb_endpoint}
use envoy_control_plane.Endpoints.Listing.{
  is_candidate, address_endpoint, pod_endpoint, get_locality_lb_endpoints, from_selectors,
  from_services,
}
use envoy_control_plane.Api.{list_pods, get_endpoint}
use envoy_control_plane.World.{World, push_task}
use envoy_control_plane.World.Served.{served}
use envoy_control_plane.ConfigMaps.{new_config_map, check_config_map_labels, identify}
use envoy_control_plane.ConfigMaps.Faithful.{Saves, new_config_map-served}
use envoy_control_plane.ConfigMaps.Replayed.{Registry}
use envoy_control_plane.Events.{on_delete_pod, run_task}
use envoy_control_plane.Events.Reachable.{Reachable, step, background, pod_deleted}
use envoy_control_plane.Events.History.{
  Agrees, history, apply_history, history_refines, same_history,
}
use envoy_control_plane.Events.Snapshots.{HasNoSnapshot, IsSnapshotOf, push_serves_history}
use envoy_control_plane.Examples.{
  settings, runtime, listers, xds, xds-IsCache, codec, issuer, templates,
}
use envoy_control_plane.Examples.Stores.{
  config_map, empty, empty-IsRegistered, loaded, loaded-Reachable, nobody, empty-AgreesWith,
  loaded_lem, loaded_store, loaded-heap, loaded-running,
}

history_refines_example : Agrees loaded (
    apply_history runtime settings issuer codec templates
      (history runtime settings issuer codec templates loaded-Reachable)
      nobody)
history_refines_example =
    history_refines runtime settings issuer codec templates empty loaded nobody loaded-Reachable
      empty-IsRegistered empty-AgreesWith

-- The same process after a pod went.
abbrev without_pod : World xds
without_pod = on_delete_pod runtime settings listers loaded

without_pod-Reachable : Reachable runtime settings issuer codec templates xds empty without_pod
without_pod-Reachable = step loaded-Reachable (background (pod_deleted listers))

same-events :
    history runtime settings issuer codec templates loaded-Reachable
    ≡ history runtime settings issuer codec templates without_pod-Reachable
unfolding history without_pod-Reachable
same-events = refl

same_history_example : served loaded "front" ≡ served without_pod "front"
same_history_example =
    same_history runtime settings issuer codec templates empty loaded without_pod loaded-Reachable
      without_pod-Reachable empty-IsRegistered same-events "front"

-- The push that the creation of the store started.
abbrev world_of : Option (World xds) → World xds
world_of none = empty
world_of (some w) = w

pushed_world : World xds
unfolding run_task
pushed_world =
    world_of
      (run_task runtime settings listers ("v1" ∷ []) (push_task 0) (record loaded { tasks = [] }))

pushes :
    run_task runtime settings listers ("v1" ∷ []) (push_task 0) (record loaded { tasks = [] })
    ≡ some pushed_world
unfolding pushed_world run_task loaded new_config_map settings config_map parse_config_yaml
    save_resources yaml_to_resources new get_config_endpoints load_new_secrets new_secrets push
    new_version save_last_endpoints collect get_locality_lb_endpoints from_selectors list_pods
    from_services get_endpoint collect_found runtime is_candidate is_pod_ready address_endpoint
    get_envoy_locality_lb_endpoint pod_endpoint
pushes = refl

push_serves_history_example :
    HasNoSnapshot xds loaded_store loaded.cache pushed_world.cache
    ⊎ ((g' : Registry) × (config : ConfigType) × (apply_history runtime settings issuer codec
            templates
            (history runtime settings issuer codec templates loaded-Reachable)
            nobody
          ≡ returns g')
        × (g' loaded_store.config.id ≡ some config)
        × IsSnapshotOf xds pushed_world.cache loaded_store.config.id config)
push_serves_history_example =
    push_serves_history xds-IsCache runtime settings issuer codec templates listers ("v1" ∷ [])
      empty loaded pushed_world nobody 0 loaded_store [] loaded-Reachable empty-IsRegistered
      empty-AgreesWith loaded-heap loaded-running pushes

watched : check_config_map_labels settings config_map ≡ returns true
unfolding check_config_map_labels settings config_map
watched = refl

one_entry : config_map.texts ≡ ("front", "kubernetes: []") ∷ []
unfolding config_map
one_entry = refl

new_config_map-served_example :
    (node saved : ConfigType) × Saves runtime settings issuer codec templates listers config_map
      "front" "kubernetes: []" node saved
    × (served loaded (identify config_map "front" node).id ≡ some saved)
new_config_map-served_example =
    new_config_map-served runtime settings issuer codec templates listers config_map empty loaded []
      "front" "kubernetes: []" [] empty-IsRegistered watched one_entry tt loaded_lem
