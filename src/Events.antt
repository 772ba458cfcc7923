-- ===== src/Events.antt =====
-- internal/internal.go and pkg/api/informers.go: what an event of an informer, a round of a
-- periodic job and a goroutine do to the process. `StoreMap.Range` visits the entries that the map
-- has when it begins; the tests of dynamic types, which always hold, are left out.
pub mod Kept
pub mod Reachable
pub mod History
pub mod Snapshots
use envoy_control_plane.Prelude.{
  ℕ, String, Bool, true, false, not, ◌&&◌, Option, none, some, List, [], ◌∷◌, ◌++◌, length,
  get_elem?, set, all, zero, suc, nat_beq, is_some, Result, ok, err, Error, Outcome, returns,
  panics, ◌==◌, if◌then◌else◌,
}
use envoy_control_plane.Prelude.Maps.{Map, lookup}
use envoy_control_plane.Kube.{ConfigMap, Listers}
use envoy_control_plane.Config.{Settings}
use envoy_control_plane.Resources.{Codec}
use envoy_control_plane.Loading.{Templates}
use envoy_control_plane.Publish.{Runtime}
use envoy_control_plane.Secrets.{Issuer}
use envoy_control_plane.Xds.{Xds}
use envoy_control_plane.ConfigStore.{
  ConfigStore, save_last_endpoints, new_pod, delete_pod, new_endpoint, load_new_secrets, push,
}
use envoy_control_plane.ConfigStore.Resync.{sync}
use envoy_control_plane.World.{World, Task, push_task, save_task, started, call_at}
use envoy_control_plane.ConfigMaps.{Run, new_config_map}

-- A call on every store of the map.
unfoldable pub range_stores :
    {x : Xds} → (ConfigStore → ConfigStore × Bool) → Map ℕ → World x → World x
unfolding call_at
range_stores f [] w = w
range_stores f ((key, a) ∷ rest) w = range_stores f rest (call_at f a w)

module _ (r : Runtime) (c : Settings) {x : Xds} (l : Listers) where
  unfoldable pub on_new_pod : World x → World x
  unfolding range_stores new_pod
  on_new_pod w = range_stores (new_pod r c l) w.store_map w

  unfoldable pub on_delete_pod : World x → World x
  unfolding range_stores delete_pod
  on_delete_pod w = range_stores (delete_pod r c l) w.store_map w

  unfoldable pub on_new_endpoints : World x → World x
  unfolding range_stores new_endpoint
  on_new_endpoints w = range_stores (new_endpoint r c l) w.store_map w

  -- The state that `Sync` left, with the goroutines that it started.
  abbrev pub synced : ℕ → Outcome (ConfigStore × Bool × Bool) → World x → Outcome (World x)
  synced a panics w = panics
  synced a (returns (cs, pushes, saves)) w = returns (record w {
    heap = set w.heap a cs;
    tasks = w.tasks ++ started pushes (push_task a) ++ started saves (save_task a);
  })

  abbrev pub sync_found : ℕ → Option ConfigStore → World x → Outcome (World x)
  sync_found a none w = returns w
  sync_found a (some cs) w = synced a (sync x r c l cs w.cache) w

  -- A panic ends the process.
  unfoldable pub sync_stores : Map ℕ → World x → Outcome (World x)
  unfolding sync
  sync_stores [] w = returns w
  sync_stores ((key, a) ∷ rest) w = elim (sync_found a (get_elem? w.heap a) w) [
    | panics ↦ panics
    | returns w' ↦ sync_stores rest w'
  ]

  -- One round of `syncAll`.
  unfoldable pub sync_all : World x → Outcome (World x)
  unfolding sync_stores
  sync_all w = sync_stores w.store_map w

  -- A goroutine; `us` is what `uuid.New` gives it.
  abbrev pub pushed : ℕ → Option (ConfigStore × x.Cache) → World x → Option (World x)
  pushed a none w = none
  pushed a (some (cs, cache)) w = some (record w { heap = set w.heap a cs; cache = cache })

  abbrev pub push_found : List String → ℕ → Option ConfigStore → World x → Option (World x)
  push_found us a none w = some w
  push_found us a (some cs) w = pushed a (push x us cs w.cache) w

  unfoldable pub run_task : List String → Task → World x → Option (World x)
  unfolding push call_at save_last_endpoints
  run_task us (push_task a) w = push_found us a (get_elem? w.heap a) w
  run_task us (save_task a) w = some (call_at (save_last_endpoints r c l) a w)

  -- An error of `LoadNewSecrets` is logged, and the store keeps its secrets.
  abbrev pub rotated : List String → ℕ → Result ConfigStore → World x → Option (World x)
  rotated us a (err e) w = some w
  rotated us a (ok cs) w = pushed a (push x us cs w.cache) w

  abbrev pub rotate_found :
      Issuer → List String → ℕ → Option ConfigStore → World x → Option (World x)
  rotate_found i us a none w = some w
  rotate_found i us a (some cs) w = rotated us a (load_new_secrets i c cs) w

  -- `uuids a` is what `uuid.New` gives to the push of the object at `a`.
  unfoldable pub rotate_stores : Issuer → (ℕ → List String) → Map ℕ → World x → Option (World x)
  unfolding push load_new_secrets
  rotate_stores i uuids [] w = some w
  rotate_stores i uuids ((key, a) ∷ rest) w =
      elim (rotate_found i (uuids a) a (get_elem? w.heap a) w) [
        | none ↦ none
        | some w' ↦ rotate_stores i uuids rest w'
      ]

  -- One round of `rotateCertificates`.
  unfoldable pub rotate_certificates : Issuer → (ℕ → List String) → World x → Option (World x)
  unfolding rotate_stores
  rotate_certificates i uuids w = rotate_stores i uuids w.store_map w

-- `reflect.DeepEqual` of two maps.
unfoldable pub same_map : Map String → Map String → Bool
unfolding lookup
same_map m n =
    nat_beq (length m) (length n)
    && all (λ e. elim (lookup e.0 n) [ none ↦ false | some v ↦ v == e.1 ]) m

-- The `UpdateFunc` of the ConfigMaps' informer.
unfoldable pub on_config_update :
    {x : Xds}
    → Runtime
    → Settings
    → Issuer
    → Codec
    → Templates
    → Listers
    → ConfigMap
    → ConfigMap
    → World x
    → Run x
unfolding same_map new_config_map
on_config_update r c i k t l old cur w =
    if same_map cur.texts old.texts && same_map cur.annotations old.annotations
    then returns (w, none)
    else new_config_map r c i k t l cur w
