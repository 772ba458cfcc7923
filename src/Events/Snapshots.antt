-- ===== src/Events/Snapshots.antt =====
-- internal/internal.go and pkg/configstore/configStore.go: from the events of ConfigMaps to the
-- snapshot that a push stores.
use envoy_control_plane.Prelude.{
  Error, ℕ, String, false, Option, none, some, List, ◌≡◌, ◌≢◌, refl, ap, sym, ◌∙◌, subst, get_elem?,
  Result, ok, err, returns, some-injective, ◌⊎◌, inl, inr, if◌then◌else◌,
}
use envoy_control_plane.Kube.{Listers}
use envoy_control_plane.Config.{ConfigType, Settings}
use envoy_control_plane.Resources.{Codec}
use envoy_control_plane.Loading.{Templates}
use envoy_control_plane.Publish.{Runtime}
use envoy_control_plane.Secrets.{Issuer, cluster_type, route_type, listener_type}
use envoy_control_plane.Xds.{Xds, IsCache, Shows}
use envoy_control_plane.ConfigStore.{ConfigStore, push, get_config_snapshot, endpoints_slice}
use envoy_control_plane.ConfigStore.Pushing.{IsServed, IsCached, push-Pushes}
use envoy_control_plane.World.{World, Task, push_task}
use envoy_control_plane.World.Registered.{IsRegistered}
use envoy_control_plane.World.Served.{served, served_at, running_config}
use envoy_control_plane.ConfigMaps.Replayed.{Registry}
use envoy_control_plane.Events.{run_task, pushed}
use envoy_control_plane.Events.Reachable.{Reachable, Reachable-IsRegistered}
use envoy_control_plane.Events.History.{history, apply_history, history_refines}

-- The snapshot of a node holds the resources of a configuration.
abbrev pub IsSnapshotOf : (x : Xds) → x.Cache → String → ConfigType → Type 0
IsSnapshotOf x cache id config =
    (snap : x.Snapshot) × (x.get_snapshot cache id ≡ some snap)
    × (Shows x snap cluster_type config.parsed_clusters)
    × (Shows x snap route_type config.parsed_routes)
    × (Shows x snap listener_type config.parsed_listeners)

-- No snapshot can be made of the state under a version that is not its own, and the cache stays as it was.
abbrev pub HasNoSnapshot : (x : Xds) → ConfigStore → (cache cache' : x.Cache) → Type 0
HasNoSnapshot x cs cache cache' =
    (version : String) × (version ≢ cs.version)
    × (f : Error) × (get_config_snapshot x version cs.config (endpoints_slice cs.last_endpoints)
          cs.secrets
        ≡ err f)
    × (cache' ≡ cache)

module _ {x : Xds} where
  -- The map of stores leads to the configuration of each running store.
  served-running :
      (w : World x) (a : ℕ) (cs : ConfigStore)
      → IsRegistered w
      → get_elem? w.heap a ≡ some cs
      → cs.is_stoped ≡ false
      → served w cs.config.id ≡ some cs.config
  unfolding served
  served-running w a cs h e n =
      ap (served_at w) (h.listed a cs e n)
      ∙ ap running_config e
      ∙ ap (λ b. if b then none else some cs.config) n

  IsServed-IsSnapshotOf :
      (laws : IsCache x) (cs : ConfigStore) (cache : x.Cache)
      → IsServed x laws cs cache
      → IsSnapshotOf x cache cs.config.id cs.config
  IsServed-IsSnapshotOf laws cs cache s = (s.snapshot, s.found, s.clusters, s.routes, s.listeners)

  cached_lem :
      (laws : IsCache x) (cs cs' : ConfigStore) (cache cache' : x.Cache) (m : Result x.Snapshot)
      → get_config_snapshot x cs'.version cs.config (endpoints_slice cs.last_endpoints) cs.secrets
        ≡ m
      → cs'.version ≢ cs.version
      → cs'.config ≡ cs.config
      → IsCached x laws cs' cache cache' m
      → HasNoSnapshot x cs cache cache' ⊎ IsSnapshotOf x cache' cs.config.id cs.config
  cached_lem laws cs cs' cache cache' (err e) made ne same h = inl (cs'.version, ne, e, made, h)
  cached_lem laws cs cs' cache cache' (ok snap) made ne same h =
      inr (subst (λ d. IsSnapshotOf x cache' d.id d) same (IsServed-IsSnapshotOf laws cs' cache' h))

  pushed_lem :
      (laws : IsCache x) (r : Runtime) (c : Settings) (l : Listers) (us : List String) (a : ℕ)
      (cs : ConfigStore) (w w' : World x)
      → (o : Option (ConfigStore × x.Cache)) → push x us cs w.cache ≡ o
      → pushed r c l a o w ≡ some w'
      → HasNoSnapshot x cs w.cache w'.cache ⊎ IsSnapshotOf x w'.cache cs.config.id cs.config
  pushed_lem laws r c l us a cs w w' none e q = cc
  pushed_lem laws r c l us a cs w w' (some (cs', cache')) e q =
      let p = push-Pushes x laws us cs cs' w.cache cache' e in
      subst (λ k. HasNoSnapshot x cs w.cache k ⊎ IsSnapshotOf x k cs.config.id cs.config)
        (ap (λ z. z.cache) (some-injective q))
        (cached_lem laws cs cs' w.cache cache' _ refl p.version_ne (ap (λ z. z.config) p.state)
          p.cached)

  run_task_lem :
      (laws : IsCache x) (r : Runtime) (c : Settings) (l : Listers) (us : List String) (a : ℕ)
      (cs : ConfigStore) (w w' : World x)
      → get_elem? w.heap a ≡ some cs
      → run_task r c l us (push_task a) w ≡ some w'
      → HasNoSnapshot x cs w.cache w'.cache ⊎ IsSnapshotOf x w'.cache cs.config.id cs.config
  unfolding run_task
  run_task_lem laws r c l us a cs w w' e q =
      pushed_lem laws r c l us a cs w w' (push x us cs w.cache) refl (rw (run_task, e) at q)

  -- However events, jobs and goroutines followed on each other from registered stores, a push of a
  -- running store that then runs leaves in the cache, for the node of the store, a snapshot with the
  -- clusters, the routes and the listeners of the configuration that the history of events of
  -- ConfigMaps gives this node, each under its name and the later of two with one name; or, if no
  -- snapshot can be made of the store under a version that is not its own, the cache stays as it was.
  pub push_serves_history :
      (laws : IsCache x) (r : Runtime) (c : Settings) (i : Issuer) (k : Codec) (t : Templates)
      (l : Listers) (us : List String) (start w w' : World x) (g : Registry) (a : ℕ)
      (cs : ConfigStore) (tasks : List Task) (p : Reachable r c i k t x start w)
      → IsRegistered start
      → ((key : String) → served start key ≡ g key)
      → get_elem? w.heap a ≡ some cs
      → cs.is_stoped ≡ false
      → run_task r c l us (push_task a) (record w { tasks = tasks }) ≡ some w'
      → HasNoSnapshot x cs w.cache w'.cache
        ⊎ ((g' : Registry) × (config : ConfigType) × (apply_history r c i k t
                (history r c i k t p)
                g
              ≡ returns g')
            × (g' cs.config.id ≡ some config)
            × IsSnapshotOf x w'.cache cs.config.id config)
  push_serves_history laws r c i k t l us start w w' g a cs tasks p h same e n q =
      let (g', u, v) = history_refines r c i k t start w g p h same in
      elim (run_task_lem laws r c l us a cs (record w { tasks = tasks }) w' e q) [
        | inl kept ↦ inl kept
        | inr snap ↦
            let running = served-running w a cs (Reachable-IsRegistered r c i k t x p h) e n in
            inr (g', cs.config, u, sym (v cs.config.id) ∙ running, snap)
      ]
