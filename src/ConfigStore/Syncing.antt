-- ===== src/ConfigStore/Syncing.antt =====
-- `Sync`: agreement with the cache, recovery from a mismatch, and the panic on a missing snapshot.
use envoy_control_plane.Prelude.{
  String, true, false, Option, none, some, List, returns, panics, ◌≡◌, ◌≢◌, refl, ap, arith, eq_iff,
  if◌then◌else◌, map, ◌∙◌,
}
use envoy_control_plane.Kube.{Listers}
use envoy_control_plane.Config.{ConfigType, Settings}
use envoy_control_plane.Publish.{Runtime, Published, collect}
use envoy_control_plane.Secrets.{endpoint_type}
use envoy_control_plane.Xds.{Xds, IsCache}
use envoy_control_plane.ConfigStore.{ConfigStore, save_last_endpoints}
use envoy_control_plane.ConfigStore.Saving.{
  IsSaved, nothing, saved, save_last_endpoints-current, save_last_endpoints-IsSaved,
  config-save_last_endpoints,
}
use envoy_control_plane.Envoy.{Resource}
use envoy_control_plane.Publish.Lines.{to_resource}
use envoy_control_plane.ConfigStore.Resync.{
  is_mismatch, forget_endpoints, check_snapshot, check_saved, sync_check, with_push, sync_running,
  sync,
}
use envoy_control_plane.ConfigStore.Pushing.{IsServed}

is_mismatch_self : (cs : ConfigStore) (v : String) → v ≡ cs.version → is_mismatch v cs ≡ false
unfolding is_mismatch
is_mismatch_self cs v e = ground (arith, eq_iff v cs.version)

is_mismatch_ne : (cs : ConfigStore) (v : String) → v ≢ "" → v ≢ cs.version → is_mismatch v cs ≡ true
unfolding is_mismatch
is_mismatch_ne cs v p q = ground (arith, eq_iff v "", eq_iff v cs.version)

module _ (x : Xds) (laws : IsCache x) where
  open x use {Snapshot, Cache, get_version, get_snapshot}

  sync_check_lem :
      (cs : ConfigStore) (cache : Cache) (o : Option (List Resource))
      → cs.last_endpoints ≡ o
      → sync_check x cs cache ≡ check_saved x o cs cache
  unfolding sync_check
  sync_check_lem cs cache o e = ap (λ o. check_saved x o cs cache) e

  check_saved-IsServed :
      (o : Option (List Resource)) (cs : ConfigStore) (cache : Cache)
      → IsServed x laws cs cache
      → check_saved x o cs cache ≡ returns (cs, false)
  check_saved-IsServed none cs cache s = refl
  check_saved-IsServed (some rs) cs cache s =
      rw (s.found, is_mismatch_self cs _ s.versions.1.1.1.1.0) refl

  -- `Sync` finds nothing to repair when the node is served the state: its critical section
  -- changes nothing and starts no other save.
  pub sync_check-IsServed :
      (cs : ConfigStore) (cache : Cache)
      → IsServed x laws cs cache
      → sync_check x cs cache ≡ returns (cs, false)
  unfolding sync_check
  sync_check-IsServed cs cache s = check_saved-IsServed cs.last_endpoints cs cache s

  -- When the cache serves another version of the node, the critical section of `Sync` forgets the
  -- saved endpoints and starts another save, which then starts a push as soon as the listers
  -- answer and no address is invalid.
  pub sync_check_repairs :
      (r : Runtime) (c : Settings) (l : Listers) (cs : ConfigStore) (cache : Cache)
      (snap : Snapshot) (p : Published) (rs : List Resource)
      → cs.last_endpoints ≡ some rs
      → get_snapshot cache cs.config.id ≡ some snap
      → get_version snap endpoint_type ≢ ""
      → get_version snap endpoint_type ≢ cs.version
      → collect r c l cs.config cs.config_endpoints ≡ some p
      → (sync_check x cs cache ≡ returns (forget_endpoints cs, true))
        × ((save_last_endpoints r c l (forget_endpoints cs)).1 ≡ true)
  sync_check_repairs r c l cs cache snap p rs held found some_version other_version collected = (
    sync_check_lem cs cache (some rs) held
        ∙ rw (found, is_mismatch_ne cs _ some_version other_version) refl,
    (unfold forget_endpoints in
        (save_last_endpoints-current r c l (forget_endpoints cs) p collected).1.1 (cc)),
  )

  saved_endpoints :
      (r : Runtime) (cs : ConfigStore) (lines : List String)
      → IsSaved r cs
      → cs.last_endpoints_array ≡ some lines
      → (rs : List Resource) × (cs.last_endpoints ≡ some rs)
  saved_endpoints r cs lines (nothing e a) h = cc (a, h)
  saved_endpoints r cs lines (saved m e a v) h = (map to_resource m, e)

  sync-running :
      (r : Runtime) (c : Settings) (l : Listers) (cs : ConfigStore) (cache : Cache)
      → cs.is_stoped ≡ false
      → sync x r c l cs cache ≡ sync_running x r c l cs cache
  sync-running r c l cs cache running =
      unfold sync in
      ap (λ b. if b then returns (cs, false, false) else sync_running x r c l cs cache) running

  check_saved-missing :
      (cs : ConfigStore) (cache : Cache) (rs : List Resource)
      → cs.last_endpoints ≡ some rs
      → get_snapshot cache cs.config.id ≡ none
      → sync_check x cs cache ≡ panics
  check_saved-missing cs cache rs held missing =
      sync_check_lem cs cache (some rs) held ∙ ap (λ s. check_snapshot x s cs) missing

  -- If `saveLastEndpoints` finds endpoints to save and the cache has no snapshot of the node,
  -- `Sync` panics: it asks the missing snapshot for its version.
  pub sync_panics :
      (r : Runtime) (c : Settings) (l : Listers) (cs : ConfigStore) (cache : Cache) (p : Published)
      → cs.is_stoped ≡ false
      → IsSaved r cs
      → collect r c l cs.config cs.config_endpoints ≡ some p
      → get_snapshot cache cs.config.id ≡ none
      → sync x r c l cs cache ≡ panics
  sync_panics r c l cs cache p running valid collected missing =
      let now : ConfigStore = (save_last_endpoints r c l cs).0 in
      let (rs, e) =
        saved_endpoints r now p.publish_ep_array (save_last_endpoints-IsSaved r c l cs valid)
          (save_last_endpoints-current r c l cs p collected).0 in
      sync-running r c l cs cache running
      ∙ ap (with_push x (save_last_endpoints r c l cs).1) (
          check_saved-missing now cache rs e (
            ap (λ (g : ConfigType). get_snapshot cache g.id) (config-save_last_endpoints r c l cs)
            ∙ missing))
