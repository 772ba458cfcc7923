-- ===== src/ConfigStore.antt =====
-- pkg/configstore/configStore.go: the state that is kept for one node and its operations. A
-- method returns the new state; `true` beside it says that it started a goroutine that pushes
-- (`go cs.Push`). Logging and the metrics' counters are left out.
pub mod Create
pub mod Resync
pub mod Saving
pub mod Started
pub mod Pushing
pub mod Syncing
use envoy_control_plane.Prelude.{
  String, Bool, true, false, not, ◌&&◌, Option, none, some, List, [], ◌∷◌, Result, ok, err, Error,
  wrapped, Outcome, returns, panics, ◌>>=◌, ◌==◌, if◌then◌else◌,
}
use envoy_control_plane.Prelude.Maps.{append_at}
use envoy_control_plane.Kube.{Listers}
use envoy_control_plane.Envoy.{Secret, Resource}
use envoy_control_plane.Config.{ConfigType, Settings}
use envoy_control_plane.Endpoints.Listing.{LbMap}
use envoy_control_plane.Publish.{Runtime, Published, collect}
use envoy_control_plane.Secrets.{Issuer, new_secrets, snapshot_resources, endpoint_type}
use envoy_control_plane.Xds.{Xds}
use envoy_control_plane.Prelude.Maps.{Map}
use envoy_control_plane.Envoy.{LocalityLbEndpoints, ClusterLoadAssignment}

-- `last_endpoints` and `last_endpoints_array` are nil (`none`) until endpoints were saved.
pub record ConfigStore : Type 0 where
  pub version : String
  pub config : ConfigType
  pub config_endpoints : LbMap
  pub last_endpoints : Option (List Resource)
  pub last_endpoints_array : Option (List String)
  pub secrets : List Secret
  pub is_stoped : Bool

-- `reflect.DeepEqual` of two slices of texts, the second of which is not nil.
unfoldable pub same_texts : List String → List String → Bool
same_texts [] [] = true
same_texts (s ∷ ss) (t ∷ ts) = s == t && same_texts ss ts
same_texts _ _ = false

unfoldable pub deep_equal : Option (List String) → List String → Bool
unfolding same_texts
deep_equal none ts = false
deep_equal (some ss) ts = same_texts ss ts

-- The critical section of `saveLastEndpoints`.
unfoldable pub commit : Published → ConfigStore → ConfigStore × Bool
unfolding deep_equal
commit p cs =
    if not (deep_equal cs.last_endpoints_array p.publish_ep_array)
    then (
      record cs {
        last_endpoints = some p.publish_ep;
        last_endpoints_array = some p.publish_ep_array;
      },
      true,
    )
    else (cs, false)

-- An early return, or the critical section.
abbrev pub commit_found : Option Published → ConfigStore → ConfigStore × Bool
commit_found none cs = (cs, false)
commit_found (some p) cs = commit p cs

module _ (r : Runtime) (c : Settings) (l : Listers) where
  unfoldable pub save_last_endpoints : ConfigStore → ConfigStore × Bool
  unfolding commit
  save_last_endpoints cs = commit_found (collect r c l cs.config cs.config_endpoints) cs

  unfoldable pub new_pod : ConfigStore → ConfigStore × Bool
  unfolding save_last_endpoints
  new_pod cs = if cs.is_stoped then (cs, false) else save_last_endpoints cs

  unfoldable pub new_endpoint : ConfigStore → ConfigStore × Bool
  unfolding new_pod
  new_endpoint cs = new_pod cs

  unfoldable pub delete_pod : ConfigStore → ConfigStore × Bool
  unfolding new_pod
  delete_pod cs = new_pod cs

unfoldable pub stop : ConfigStore → ConfigStore
stop cs = record cs { is_stoped = true }

unfoldable pub get_last_endpoints : ConfigStore → Option (List String)
get_last_endpoints cs = cs.last_endpoints_array

-- On an error the secrets stay as they were.
unfoldable pub load_new_secrets : Issuer → Settings → ConfigStore → Result ConfigStore
load_new_secrets i c cs = do
  secrets ← wrapped "can not create secrets" (new_secrets i c cs.config.name cs.config.validation)
  ok (record cs { secrets = secrets })

-- The loop of `Push` over the texts that `uuid.New` returns; `none` if it is still running when
-- these are used up.
unfoldable pub new_version : String → List String → Option String
new_version version [] = none
new_version version (u ∷ us) =
    let again = new_version version us in if u == version then again else some u

-- `cs.lastEndpoints` as the slice that it is.
abbrev pub endpoints_slice : Option (List Resource) → List Resource
endpoints_slice none = []
endpoints_slice (some rs) = rs

module _ (x : Xds) where
  open x use {Snapshot, Cache, new_snapshot, get_version, set_snapshot, get_snapshot}

  unfoldable pub get_config_snapshot :
      String → ConfigType → List Resource → List Secret → Result Snapshot
  unfolding snapshot_resources
  get_config_snapshot version config endpoints common_secrets =
      new_snapshot version (snapshot_resources config endpoints common_secrets)

  -- `SetSnapshot`, unless there is no snapshot; its error is logged.
  abbrev pub store_snapshot : Result Snapshot → String → Cache → Cache
  store_snapshot (err e) id cache = cache
  store_snapshot (ok snap) id cache = (set_snapshot cache id snap).0

  -- `Push`, once the loop has found its version.
  abbrev pub push_version : String → ConfigStore → Cache → ConfigStore × Cache
  push_version version cs cache = (
    record cs { version = version },
    store_snapshot
        (get_config_snapshot version cs.config (endpoints_slice cs.last_endpoints) cs.secrets)
        cs.config.id cache,
  )

  unfoldable pub push : List String → ConfigStore → Cache → Option (ConfigStore × Cache)
  unfolding new_version get_config_snapshot
  push us cs cache = elim (new_version cs.version us) [
    | none ↦ none
    | some version ↦ some (push_version version cs cache)
  ]
