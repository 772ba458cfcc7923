-- ===== src/ConfigStore/Pushing.antt =====
-- `Push`: the new version, and what the node is served.
use mathlib.Core.Path.{subst}
use envoy_control_plane.Prelude.{
  String, some, some-injective, List, [], ◌∷◌, ◌++◌, map, Result, ok, err, ◌≡◌, ◌≢◌, refl,
  Option-cases, inl, inr, arith, eq_iff, All,
}
use envoy_control_plane.Prelude.Maps.{lookup}
use envoy_control_plane.Envoy.{secret}
use envoy_control_plane.Secrets.{
  cluster_type, route_type, listener_type, secret_type, endpoint_type, snapshot_resources,
}
use envoy_control_plane.Xds.{Xds, IsCache, Shows}
use envoy_control_plane.ConfigStore.{
  ConfigStore, new_version, endpoints_slice, get_config_snapshot, store_snapshot, push_version,
  push,
}

-- The loop of `Push` goes on exactly as long as the texts that it draws are the version before: after
-- any number of these it ends with the first other text.
pub new_version_ends :
    (version u : String) (same us : List String)
    → All (λ s. s ≡ version) same
    → u ≢ version
    → new_version version (same ++ u ∷ us) ≡ some u
unfolding new_version
new_version_ends version u [] us h ne = ground (arith, eq_iff u version)
new_version_ends version u (s ∷ same) us (e, h) ne =
    ground (arith, eq_iff s version, new_version_ends version u same us h ne)

pub new_version_ne :
    (version : String) (us : List String) (v : String)
    → new_version version us ≡ some v
    → v ≢ version
unfolding new_version
new_version_ne version [] v h = cc
new_version_ne version (u ∷ us) v h = ground (arith, eq_iff u version, new_version_ne version us v)

abbrev pub pushed_types : List String
pushed_types = cluster_type ∷ route_type ∷ listener_type ∷ secret_type ∷ endpoint_type ∷ []

module _ (x : Xds) (laws : IsCache x) where
  open x use {Snapshot, Cache, new_snapshot, get_version, get_snapshot}

  -- A node is served the configuration, the secrets and the endpoints of a state, all under the
  -- version of the state.
  pub record IsServed (cs : ConfigStore) (cache : Cache) : Type 0 where
    pub snapshot : Snapshot
    pub found : get_snapshot cache cs.config.id ≡ some snapshot
    pub versions : All (λ t. get_version snapshot t ≡ cs.version) pushed_types
    pub clusters : Shows x snapshot cluster_type cs.config.parsed_clusters
    pub routes : Shows x snapshot route_type cs.config.parsed_routes
    pub listeners : Shows x snapshot listener_type cs.config.parsed_listeners
    pub secrets : Shows x snapshot secret_type (cs.config.parsed_secrets ++ map secret cs.secrets)
    pub endpoints : Shows x snapshot endpoint_type (endpoints_slice cs.last_endpoints)

  push_version-IsServed :
      (version : String) (cs : ConfigStore) (cache : Cache) (snap : Snapshot)
      → get_config_snapshot x version cs.config (endpoints_slice cs.last_endpoints) cs.secrets
        ≡ ok snap
      → IsServed (push_version x version cs cache).0 (push_version x version cs cache).1
  unfolding get_config_snapshot snapshot_resources lookup
  push_version-IsServed version cs cache snap h = rw h (record {
    snapshot = snap;
    found = laws.get_set_self cache cs.config.id snap;
    versions = (
      (laws.version cluster_type h refl).0,
      (
        (laws.version route_type h refl).0,
        (
          (laws.version listener_type h refl).0,
          ((laws.version secret_type h refl).0, ((laws.version endpoint_type h refl).0, tt)),
        ),
      ),
    );
    clusters = (laws.version cluster_type h refl).1;
    routes = (laws.version route_type h refl).1;
    listeners = (laws.version listener_type h refl).1;
    secrets = (laws.version secret_type h refl).1;
    endpoints = (laws.version endpoint_type h refl).1;
  })

  -- The cache after the attempt to make a snapshot: the node is served the state, or there is no
  -- snapshot and nothing changed.
  abbrev pub IsCached : ConfigStore → Cache → Cache → Result Snapshot → Type 0
  IsCached cs cache cache' (ok snap) = IsServed cs cache'
  IsCached cs cache cache' (err e) = cache' ≡ cache

  -- What `Push` did, if its loop has ended.
  pub record Pushes (cs cs' : ConfigStore) (cache cache' : Cache) : Type 0 where
    pub version_ne : cs'.version ≢ cs.version
    pub state : cs' ≡ record cs { version = cs'.version }
    pub cached :
        IsCached cs' cache cache' (
          get_config_snapshot x cs'.version cs.config
            (endpoints_slice cs.last_endpoints)
            cs.secrets)
    pub others :
        (node : String) → cs.config.id ≢ node → get_snapshot cache' node ≡ get_snapshot cache node

  push_version-IsCached :
      (version : String) (cs : ConfigStore) (cache : Cache)
      → IsCached
          (push_version x version cs cache).0
          cache
          (push_version x version cs cache).1
          (get_config_snapshot x version cs.config (endpoints_slice cs.last_endpoints) cs.secrets)
  push_version-IsCached version cs cache = go _ refl
    where
      go :
          (s : Result Snapshot)
          → get_config_snapshot x version cs.config (endpoints_slice cs.last_endpoints) cs.secrets
            ≡ s
          → IsCached (push_version x version cs cache).0 cache (push_version x version cs cache).1 s
      go (ok snap) h = push_version-IsServed version cs cache snap h
      go (err e) h = rw h refl

  get-store_snapshot_ne :
      (s : Result Snapshot) (id node : String) (cache : Cache)
      → id ≢ node
      → get_snapshot (store_snapshot x s id cache) node ≡ get_snapshot cache node
  get-store_snapshot_ne (err e) id node cache h = refl
  get-store_snapshot_ne (ok snap) id node cache h = laws.get_set_ne cache id node snap h

  push_version-Pushes :
      (version : String) (cs : ConfigStore) (cache : Cache)
      → version ≢ cs.version
      → Pushes cs (push_version x version cs cache).0 cache (push_version x version cs cache).1
  push_version-Pushes version cs cache h = record {
    version_ne = h;
    state = refl;
    cached = push_version-IsCached version cs cache;
    others = λ node ne. get-store_snapshot_ne _ cs.config.id node cache ne;
  }

  -- Where its loop ends, `Push` gives the state a version other than the one before, touches the
  -- snapshot of its own node alone, and serves that node the state under the new version in every
  -- resource type, each resource under its name and the later of two with one name; if no snapshot
  -- can be made of the state, the cache stays as it was.
  pub push-Pushes :
      (us : List String) (cs cs' : ConfigStore) (cache cache' : Cache)
      → push x us cs cache ≡ some (cs', cache')
      → Pushes cs cs' cache cache'
  unfolding push
  push-Pushes us cs cs' cache cache' h = elim (Option-cases (new_version cs.version us)) [
    | inl e ↦ cc (e, h)
    | inr (v, e) ↦
        subst {A = ConfigStore × Cache} (λ t. Pushes cs t.0 cache t.1)
          (some-injective (rw (e, push) at h))
          (push_version-Pushes v cs cache (new_version_ne cs.version us v e))
  ]
