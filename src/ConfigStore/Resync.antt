-- ===== src/ConfigStore/Resync.antt =====
-- `Sync` of pkg/configstore/configStore.go. Between its call of `saveLastEndpoints` and its own
-- critical section other goroutines may run; `sync` is the run in which none does.
use envoy_control_plane.Prelude.{
  String, Bool, true, false, not, ◌&&◌, Option, none, some, Outcome, returns, panics, ◌==◌,
  if◌then◌else◌,
}
use envoy_control_plane.Kube.{Listers}
use envoy_control_plane.Config.{Settings}
use envoy_control_plane.Publish.{Runtime}
use envoy_control_plane.Secrets.{endpoint_type}
use envoy_control_plane.Xds.{Xds}
use envoy_control_plane.ConfigStore.{ConfigStore, save_last_endpoints}

unfoldable pub forget_endpoints : ConfigStore → ConfigStore
forget_endpoints cs = record cs { last_endpoints = none; last_endpoints_array = none }

-- A version that the cache holds and that is not the one of the state.
unfoldable pub is_mismatch : String → ConfigStore → Bool
is_mismatch snap_version cs = not (snap_version == "") && not (snap_version == cs.version)

module _ (x : Xds) where
  open x use {Snapshot, Cache, get_version, get_snapshot}

  -- `GetSnapshot` answers a nil snapshot with an error, which is logged: the call of `GetVersion`
  -- on it panics.
  abbrev pub check_snapshot : Option Snapshot → ConfigStore → Outcome (ConfigStore × Bool)
  check_snapshot none cs = panics
  check_snapshot (some snap) cs =
      if is_mismatch (get_version snap endpoint_type) cs
      then returns (forget_endpoints cs, true)
      else returns (cs, false)

  -- `if cs.lastEndpoints != nil`
  abbrev pub check_saved {ℓ} :
      {A : Type ℓ} → Option A → ConfigStore → Cache → Outcome (ConfigStore × Bool)
  check_saved none cs cache = returns (cs, false)
  check_saved (some _) cs cache = check_snapshot (get_snapshot cache cs.config.id) cs

  -- The critical section of `Sync`; `true` says that it started `go cs.saveLastEndpoints`.
  unfoldable pub sync_check : ConfigStore → Cache → Outcome (ConfigStore × Bool)
  unfolding is_mismatch forget_endpoints
  sync_check cs cache = check_saved cs.last_endpoints cs cache

  -- The state, whether it started a push, and whether it started another save.
  abbrev pub with_push : Bool → Outcome (ConfigStore × Bool) → Outcome (ConfigStore × Bool × Bool)
  with_push pushes panics = panics
  with_push pushes (returns (cs, saves)) = returns (cs, pushes, saves)

  abbrev pub sync_running :
      Runtime → Settings → Listers → ConfigStore → Cache → Outcome (ConfigStore × Bool × Bool)
  sync_running r c l cs cache =
      let (saved, pushes) = save_last_endpoints r c l cs in
      with_push pushes (sync_check saved cache)

  unfoldable pub sync :
      Runtime → Settings → Listers → ConfigStore → Cache → Outcome (ConfigStore × Bool × Bool)
  unfolding sync_check save_last_endpoints
  sync r c l cs cache =
      if cs.is_stoped then returns (cs, false, false) else sync_running r c l cs cache
