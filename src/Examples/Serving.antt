-- ===== src/Examples/Serving.antt =====
-- The theorems on what a node is served, at one node.
use envoy_control_plane.Prelude.{
  String, true, none, some, List, [], ◌∷◌, ok, returns, panics, ◌≡◌, ◌≢◌, refl, subst, subst, sym,
  ◌∙◌,
}
use envoy_control_plane.Prelude.Maps.{lookup, insert}
use envoy_control_plane.Secrets.{endpoint_type, snapshot_resources}
use envoy_control_plane.ConfigStore.{
  ConfigStore, save_last_endpoints, new_version, push, get_config_snapshot,
}
use envoy_control_plane.ConfigStore.Saving.{nothing}
use envoy_control_plane.ConfigStore.Pushing.{
  new_version_ends, new_version_ne, push-Pushes, Pushes, IsServed,
}
use envoy_control_plane.ConfigStore.Resync.{sync_check, sync, forget_endpoints}
use envoy_control_plane.ConfigStore.Syncing.{sync_check_repairs, sync_panics}
use envoy_control_plane.ConfigStore.Pushing.{IsCached}
use envoy_control_plane.Examples.{settings, runtime, listers, config, store, xds, xds-IsCache}
use envoy_control_plane.Examples.Saving.{published, published_lem}

abbrev uuids : List String
uuids = "" ∷ "v1" ∷ "v2" ∷ []

new_version_ends_example : new_version "" uuids ≡ some "v1"
new_version_ends_example = new_version_ends "" "v1" ("" ∷ []) ("v2" ∷ []) (refl, tt) (λ p. cc)

new_version-uuids : new_version "" uuids ≡ some "v1"
unfolding new_version
new_version-uuids = refl

new_version_ne_example : ◌≢◌ {A = String} "v1" ""
new_version_ne_example = new_version_ne "" uuids "v1" new_version-uuids

empty_cache : xds.Cache
unfolding xds
empty_cache = []

-- The state and the cache after a push of the state without endpoints.
pushed : ConfigStore × xds.Cache
unfolding push
pushed = elim (push xds uuids store empty_cache) [ some p ↦ p | none ↦ (store, empty_cache) ]

pushed_lem : push xds uuids store empty_cache ≡ some (pushed.0, pushed.1)
unfolding push pushed xds new_version
pushed_lem = refl

push-Pushes_example : Pushes xds xds-IsCache store pushed.0 empty_cache pushed.1
push-Pushes_example =
    push-Pushes xds xds-IsCache uuids store pushed.0 empty_cache pushed.1 pushed_lem

snapshot : xds.Snapshot
unfolding xds
snapshot = ("v1", snapshot_resources config [] [])

snapshot_lem : get_config_snapshot xds pushed.0.version config [] [] ≡ ok snapshot
unfolding get_config_snapshot snapshot xds pushed push new_version
snapshot_lem = refl

pushed-IsServed : IsServed xds xds-IsCache pushed.0 pushed.1
pushed-IsServed =
    subst (IsCached xds xds-IsCache pushed.0 empty_cache pushed.1) snapshot_lem
      (push-Pushes xds xds-IsCache uuids store pushed.0 empty_cache pushed.1 pushed_lem).cached

absent : xds.get_snapshot empty_cache store.config.id ≡ none
unfolding xds empty_cache lookup
absent = refl

sync_panics_example : sync xds runtime settings listers store empty_cache ≡ panics
sync_panics_example =
    sync_panics xds xds-IsCache runtime settings listers store empty_cache published refl
      (nothing refl refl) published_lem absent

-- A state of another version, with endpoints.
abbrev outdated : ConfigStore
outdated = record store { version = "old"; last_endpoints = some [] }

present : xds.get_snapshot pushed.1 outdated.config.id ≡ some snapshot
unfolding xds pushed push lookup new_version get_config_snapshot snapshot empty_cache insert
present = refl

snapshot_version : xds.get_version snapshot endpoint_type ≡ "v1"
unfolding xds snapshot
snapshot_version = refl

some_version : ◌≢◌ {A = String} "v1" ""
some_version p = cc

other_version : ◌≢◌ {A = String} "v1" "old"
other_version p = cc

sync_check_repairs_example :
    (sync_check xds outdated pushed.1 ≡ returns (forget_endpoints outdated, true))
    × ((save_last_endpoints runtime settings listers (forget_endpoints outdated)).1 ≡ true)
sync_check_repairs_example =
    sync_check_repairs xds xds-IsCache runtime settings listers outdated pushed.1 snapshot published
      [] refl present (λ p. some_version (sym snapshot_version ∙ p))
      (λ p. other_version (sym snapshot_version ∙ p)) published_lem
