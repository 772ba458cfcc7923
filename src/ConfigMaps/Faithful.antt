-- ===== src/ConfigMaps/Faithful.antt =====
-- pkg/configmapsstore/configMapsStore.go: what runs for the nodes of a ConfigMap after NewConfigMap.
use envoy_control_plane.Prelude.{
  ◌≡◌, ◌≢◌, refl, ap, sym, ◌∙◌, subst, String, Bool, true, false, Option, none, some, List, [], ◌∷◌,
  ◌++◌, Result, ok, err, Error, Outcome, returns, panics, returns-injective, ◌==◌, if◌then◌else◌,
  arith, All, eq_iff, eq_refl,
}
use envoy_control_plane.Kube.{ConfigMap, Listers}
use envoy_control_plane.Config.{ConfigType, Settings}
use envoy_control_plane.Resources.{Codec}
use envoy_control_plane.Loading.{Templates, save_resources, parse_config_yaml}
use envoy_control_plane.Publish.{Runtime}
use envoy_control_plane.Secrets.{Issuer}
use envoy_control_plane.Xds.{Xds}
use envoy_control_plane.ConfigStore.{ConfigStore}
use envoy_control_plane.World.{World}
use envoy_control_plane.World.Registered.{IsRegistered}
use envoy_control_plane.World.Served.{served}
use envoy_control_plane.ConfigMaps.{new_config_map, load_entries, identify, check_config_map_labels}
use envoy_control_plane.ConfigMaps.Replayed.{
  Registry, update, created, round, replay, load_entries-replay,
}

module _ (r : Runtime) (c : Settings) (i : Issuer) (k : Codec) (t : Templates) (l : Listers)
    (cm : ConfigMap) where
  -- An entry that is parsed, and the resources of its configuration.
  abbrev pub Saves : String → String → ConfigType → ConfigType → Type 0
  Saves node_id text config saved =
      (parse_config_yaml t node_id text ≡ returns (ok config))
      × (save_resources k c (identify cm node_id config) ≡ ok saved)

  created-none :
      (saved : ConfigType) (m : Outcome (Result (ConfigStore × Bool))) {o : Option ConfigType}
      → created saved m ≡ returns (o, none)
      → o ≡ some saved
  created-none saved panics h = cc
  created-none saved (returns (err e)) h = ground (arith, h)
  created-none saved (returns (ok made)) h = ap (λ p. p.0) (sym (returns-injective h))

  round-none :
      (config : ConfigType) (s : Result ConfigType) {o : Option ConfigType}
      → save_resources k c config ≡ s
      → round r c i k t l config ≡ returns (o, none)
      → (saved : ConfigType) × (s ≡ ok saved) × (o ≡ some saved)
  unfolding round
  round-none config (err e) p h = ground (arith, rw (round, p) at h)
  round-none config (ok saved) p h = (saved, refl, created-none saved _ (rw (round, p) at h))

  -- The first round of a loop that ends without an error.
  abbrev Begins : String → String → List (String × String) → Registry → Registry → Type 0
  Begins node_id text rest g g' =
      (config saved : ConfigType) × Saves node_id text config saved
      × (replay r c i k t l cm rest (update (identify cm node_id config).id (some saved) g)
          ≡ returns (g', none))

  after_round :
      (node_id text : String) (rest : List (String × String)) (g g' : Registry)
      (config : ConfigType) (m : Outcome (Option ConfigType × Option Error))
      → parse_config_yaml t node_id text ≡ returns (ok config)
      → round r c i k t l (identify cm node_id config) ≡ m
      → replay r c i k t l cm ((node_id, text) ∷ rest) g ≡ returns (g', none)
      → Begins node_id text rest g g'
  unfolding replay
  after_round node_id text rest g g' config panics p m h = ground (arith, rw (replay, p, m) at h)
  after_round node_id text rest g g' config (returns (o, some e)) p m h =
      ground (arith, rw (replay, p, m) at h)
  after_round node_id text rest g g' config (returns (o, none)) p m h =
      let (saved, q, same) = round-none (identify cm node_id config) _ refl m in
      (
        config,
        saved,
        (p, q),
        ap (λ z. replay r c i k t l cm rest (update (identify cm node_id config).id z g)) (sym same)
            ∙ rw (replay, p, m) at h,
      )

  begins :
      (node_id text : String) (rest : List (String × String)) (g g' : Registry)
      (o : Outcome (Result ConfigType))
      → parse_config_yaml t node_id text ≡ o
      → replay r c i k t l cm ((node_id, text) ∷ rest) g ≡ returns (g', none)
      → Begins node_id text rest g g'
  unfolding replay
  begins node_id text rest g g' panics p h = ground (arith, rw (replay, p) at h)
  begins node_id text rest g g' (returns (err e)) p h = ground (arith, rw (replay, p) at h)
  begins node_id text rest g g' (returns (ok config)) p h =
      after_round node_id text rest g g' config _ p refl h

  skipped :
      (before rest : List (String × String)) (g g' : Registry)
      → replay r c i k t l cm (before ++ rest) g ≡ returns (g', none)
      → (g₁ : Registry) × (replay r c i k t l cm rest g₁ ≡ returns (g', none))
  skipped [] rest g g' h = (g, h)
  skipped ((node_id, text) ∷ before) rest g g' h =
      let (config, saved, s, q) = begins node_id text (before ++ rest) g g' _ refl h in
      skipped before rest _ g' q

  -- The node of an entry, if it can be parsed.
  abbrev pub id_of : Outcome (Result ConfigType) → String → Option String
  id_of panics node_id = none
  id_of (returns (err e)) node_id = none
  id_of (returns (ok config)) node_id = some (identify cm node_id config).id

  abbrev pub entry_id : String × String → Option String
  entry_id entry = id_of (parse_config_yaml t entry.0 entry.1) entry.0

  differs : (id id' : String) (o : Option String) → o ≢ some id → o ≡ some id' → (id' == id) ≡ false
  differs id id' o ne same = ground (arith, eq_iff id' id)

  untouched :
      (id : String) (rest : List (String × String)) (g g' : Registry)
      → All (λ entry. entry_id entry ≢ some id) rest
      → replay r c i k t l cm rest g ≡ returns (g', none)
      → g' id ≡ g id
  unfolding replay
  untouched id [] g g' others h = ap (λ p. p.0 id) (sym (returns-injective h))
  untouched id ((node_id, text) ∷ rest) g g' (other, others) h =
      let (config, saved, (p, q), s) = begins node_id text rest g g' _ refl h in
      untouched id rest _ g' others s
      ∙ ap (λ b. if b then some saved else g id)
          (differs id (identify cm node_id config).id _ other (ap (λ o. id_of o node_id) p))

  replayed :
      (before : List (String × String)) (node_id text : String) (after : List (String × String))
      (g g' : Registry)
      → All (λ entry. entry_id entry ≢ entry_id (node_id, text)) after
      → replay r c i k t l cm (before ++ (node_id, text) ∷ after) g ≡ returns (g', none)
      → (config saved : ConfigType) × Saves node_id text config saved
        × (g' (identify cm node_id config).id ≡ some saved)
  replayed before node_id text after g g' others h =
      let (g₁, p) = skipped before ((node_id, text) ∷ after) g g' h in
      let (config, saved, (q, s), u) = begins node_id text after g₁ g' _ refl p in
      let id = (identify cm node_id config).id in
      (
        config,
        saved,
        (q, s),
        untouched id after _ g'
              (subst (λ o. All (λ entry. entry_id entry ≢ o) after) (ap (λ o. id_of o node_id) q)
                others)
              u
            ∙ ap (λ b. if b then some saved else g₁ id) (eq_refl id),
      )

  module _ {x : Xds} where
    -- If NewConfigMap returns without an error for a ConfigMap that the process watches, from
    -- registered stores, then each of its entries was parsed, its resources are valid, and the
    -- configuration with these resources is what runs for its node, unless a later entry of the
    -- ConfigMap is of the same node.
    pub new_config_map-served :
        (w w' : World x) (before : List (String × String)) (node_id text : String)
        (after : List (String × String))
        → IsRegistered w
        → check_config_map_labels c cm ≡ returns true
        → cm.texts ≡ before ++ (node_id, text) ∷ after
        → All (λ entry. entry_id entry ≢ entry_id (node_id, text)) after
        → new_config_map r c i k t l cm w ≡ returns (w', none)
        → (config saved : ConfigType) × Saves node_id text config saved
          × (served w' (identify cm node_id config).id ≡ some saved)
    unfolding new_config_map
    new_config_map-served w w' before node_id text after h watched same others q =
        let loads : load_entries r c i k t l cm cm.texts w ≡ returns (w', none) =
          rw (new_config_map, watched) at q in
        let (g', p, agrees) =
          load_entries-replay r c i k t l cm cm.texts w w' (served w) none h (λ key. refl) loads in
        let (config, saved, s, u) =
          replayed before node_id text after (served w) g' others
            (ap (λ texts. replay r c i k t l cm texts (served w)) (sym same) ∙ p) in
        (config, saved, s, agrees _ ∙ u)
