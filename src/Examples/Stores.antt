-- ===== src/Examples/Stores.antt =====
-- The theorems on the stores of the process, at a process with one store.
use envoy_control_plane.Prelude.{
  ℕ, zero, suc, String, true, false, none, some, [], ◌∷◌, err, returns, panics, Error, message,
  wrap, ◌≡◌, refl, some-injective, Bool-cases, inl, inr, eq_iff, ◌==◌, get_elem?, arith,
}
use envoy_control_plane.Prelude.Maps.{lookup}
use envoy_control_plane.Kube.{ConfigMap}
use envoy_control_plane.Config.{ConfigType, scalar}
use envoy_control_plane.Resources.{Codec, yaml_to_resources}
use envoy_control_plane.Loading.{save_resources, parse_config_yaml}
use envoy_control_plane.ConfigStore.Create.{new, get_config_endpoints}
use envoy_control_plane.Secrets.{new_secrets}
use envoy_control_plane.ConfigStore.{
  ConfigStore, load_new_secrets, save_last_endpoints, stop, new_pod,
}
use envoy_control_plane.World.{World}
use envoy_control_plane.World.Registered.{IsRegistered}
use envoy_control_plane.World.Served.{served}
use envoy_control_plane.ConfigMaps.Replayed.{Registry, replay, load_entries-replay}
use envoy_control_plane.ConfigMaps.{
  load_entries, new_config_map, delete_config_map, replace_store, belongs_to,
}
use envoy_control_plane.ConfigMaps.Deletion.{delete_config_map_stops}
use envoy_control_plane.ConfigMaps.Cleared.{delete_config_map_clears}
use envoy_control_plane.ConfigMaps.Failing.{replace_store_stops}
use envoy_control_plane.Publish.{collect, collect_found}
use envoy_control_plane.Endpoints.{is_pod_ready, get_envoy_locality_lb_endpoint}
use envoy_control_plane.Endpoints.Listing.{
  is_candidate, address_endpoint, pod_endpoint, get_locality_lb_endpoints, from_selectors,
  from_services,
}
use envoy_control_plane.Api.{list_pods, get_endpoint}
use envoy_control_plane.Events.Reachable.{Reachable, here, step, new_config, no_two_stores}
use envoy_control_plane.Examples.{
  settings, runtime, listers, config, store, xds, xds-IsCache, codec, issuer, templates,
}

unfoldable pub config_map : ConfigMap
config_map = record {
  name = "envoy";
  namespace = "shop";
  labels = ("app", "envoy-control-plane") ∷ [];
  annotations = [];
  texts = ("front", "kubernetes: []") ∷ [];
}

-- The process before the ConfigMap and with a store of it.
pub no_snapshots : xds.Cache
unfolding xds
no_snapshots = []

abbrev pub empty : World xds
empty = record { heap = []; store_map = []; cache = no_snapshots; tasks = [] }

unfoldable pub running : World xds
unfolding xds
running = record { heap = store ∷ []; store_map = ("front", 0) ∷ []; cache = []; tasks = [] }

pub empty-IsRegistered : IsRegistered empty
unfolding lookup
empty-IsRegistered = record { unique = tt; stored = λ key a h. cc; listed = λ a cs h n. cc }

running-listed :
    (a : ℕ) (cs : ConfigStore)
    → get_elem? (store ∷ []) a ≡ some cs
    → lookup cs.config.id (("front", 0) ∷ []) ≡ some a
unfolding lookup
running-listed zero cs h = rw (← some-injective h) refl
running-listed (suc a) cs h = cc

running-stored :
    (key : String) (a : ℕ)
    → lookup key (("front", 0) ∷ []) ≡ some a
    → (cs : ConfigStore) × (get_elem? (store ∷ []) a ≡ some cs) × (cs.config.id ≡ key)
unfolding lookup
running-stored key a h = elim (Bool-cases ("front" == key)) [
  | inl e ↦ (store, ground arith, (eq_iff "front" key).0 e)
  | inr e ↦ ground arith
]

pub running-IsRegistered : IsRegistered running
unfolding running
running-IsRegistered = record {
  unique = (tt, tt);
  stored = running-stored;
  listed = λ a cs h n. running-listed a cs h;
}

unfoldable pub loaded : World xds
unfolding new_config_map
loaded = elim (new_config_map runtime settings issuer codec templates listers config_map empty) [
  | returns (w, e) ↦ w
  | panics ↦ empty
]

pub loaded_lem :
    new_config_map runtime settings issuer codec templates listers config_map empty
    ≡ returns (loaded, none)
unfolding loaded new_config_map settings config_map parse_config_yaml save_resources
    yaml_to_resources new get_config_endpoints load_new_secrets new_secrets
loaded_lem = refl

-- Another ConfigMap leaves the store alone.
other_map : ConfigMap
other_map = record { name = "other"; namespace = "shop"; labels = []; annotations = []; texts = [] }

other-store : get_elem? (delete_config_map other_map running).heap 0 ≡ some store
unfolding delete_config_map running other_map
other-store = refl

delete_config_map_stops_example : belongs_to other_map store ≡ false
delete_config_map_stops_example =
    delete_config_map_stops other_map running running-IsRegistered 0 store other-store refl

running-lookup : lookup "front" running.store_map ≡ some 0
unfolding running lookup
running-lookup = refl

running-heap : get_elem? running.heap 0 ≡ some store
unfolding running
running-heap = refl

own-store : belongs_to config_map store ≡ true
unfolding config_map
own-store = refl

delete_config_map_clears_example :
    xds.get_snapshot (delete_config_map config_map running).cache "front" ≡ none
delete_config_map_clears_example =
    delete_config_map_clears config_map xds-IsCache running "front" 0 store running-IsRegistered
      running-lookup running-heap own-store

-- A codec that refuses every section, and a configuration with a section.
abbrev failing : Codec
failing = record codec { marshal_list = λ _. err (message "no JSON") }

abbrev invalid : ConfigType
invalid = record config { clusters = scalar "x" ∷ [] }

abbrev failure : Error
failure = wrap (wrap (message "no JSON") "json.Marshal(yamlObjJSON)") "error parsing clusters"

invalid-failure : save_resources failing settings invalid ≡ err failure
unfolding save_resources yaml_to_resources
invalid-failure = refl

replace_store_stops_example :
    (w' : World xds) × (replace_store runtime settings issuer failing templates listers invalid
        running
      ≡ returns (w', some (wrap failure "error in config.SaveResources")))
    × (lookup "front" w'.store_map ≡ some 0)
    × (get_elem? w'.heap 0 ≡ some (stop store))
    × (new_pod runtime settings listers (stop store) ≡ (stop store, false))
replace_store_stops_example =
    replace_store_stops runtime settings issuer failing templates listers invalid running 0 store
      failure running-lookup running-heap invalid-failure

pub loaded_store : ConfigStore
unfolding loaded
loaded_store = elim (get_elem? loaded.heap 0) [ some cs ↦ cs | none ↦ store ]

pub loaded-heap : get_elem? loaded.heap 0 ≡ some loaded_store
unfolding loaded_store loaded new_config_map settings config_map parse_config_yaml save_resources
    yaml_to_resources new get_config_endpoints load_new_secrets new_secrets save_last_endpoints
    collect get_locality_lb_endpoints from_selectors list_pods from_services get_endpoint
loaded-heap = refl

pub loaded-running : loaded_store.is_stoped ≡ false
unfolding loaded_store loaded new_config_map settings config_map parse_config_yaml save_resources
    yaml_to_resources new get_config_endpoints load_new_secrets new_secrets save_last_endpoints
    collect get_locality_lb_endpoints from_selectors list_pods from_services get_endpoint
    collect_found runtime is_candidate is_pod_ready address_endpoint get_envoy_locality_lb_endpoint
    pod_endpoint
loaded-running = refl

pub loaded-Reachable : Reachable runtime settings issuer codec templates xds empty loaded
loaded-Reachable = step here (new_config listers config_map loaded_lem)

no_two_stores_example : Path ℕ 0 0
no_two_stores_example =
    no_two_stores runtime settings issuer codec templates xds no_snapshots loaded 0 0 loaded_store
      loaded_store loaded-Reachable loaded-heap loaded-heap loaded-running loaded-running refl

abbrev pub nobody : Registry
nobody key = none

pub empty-AgreesWith : (key : String) → served empty key ≡ nobody key
unfolding served
empty-AgreesWith key = refl

loads :
    load_entries runtime settings issuer codec templates listers config_map config_map.texts empty
    ≡ returns (loaded, none)
unfolding loaded new_config_map load_entries settings config_map parse_config_yaml save_resources
    yaml_to_resources new get_config_endpoints load_new_secrets new_secrets
loads = refl

load_entries-replay_example :
    (g' : Registry) × (replay runtime settings issuer codec templates listers config_map
        config_map.texts nobody
      ≡ returns (g', none))
    × ((key : String) → served loaded key ≡ g' key)
load_entries-replay_example =
    load_entries-replay runtime settings issuer codec templates listers config_map config_map.texts
      empty loaded nobody none empty-IsRegistered empty-AgreesWith loads
