-- ===== src/ConfigMaps/Replayed.antt =====
-- pkg/configmapsstore/configMapsStore.go: the loop of NewConfigMap as updates of a map from nodes to
-- configurations, without objects, addresses and goroutines.
use envoy_control_plane.Prelude.{
  ◌≡◌, refl, ap, ◌∙◌, subst, String, Bool, Option, none, some, List, [], ◌∷◌, Result, ok, err,
  Error, wrap, Outcome, returns, panics, returns-injective, ◌==◌, if◌then◌else◌, arith,
}
use envoy_control_plane.Kube.{ConfigMap, Listers}
use envoy_control_plane.Config.{ConfigType, Settings}
use envoy_control_plane.Resources.{Codec}
use envoy_control_plane.Loading.{Templates, save_resources, parse_config_yaml}
use envoy_control_plane.Publish.{Runtime}
use envoy_control_plane.Secrets.{Issuer}
use envoy_control_plane.Xds.{Xds}
use envoy_control_plane.ConfigStore.{ConfigStore}
use envoy_control_plane.ConfigStore.Create.{new}
use envoy_control_plane.World.{World}
use envoy_control_plane.World.Registered.{IsRegistered}
use envoy_control_plane.World.Served.{served}
use envoy_control_plane.ConfigMaps.{
  Run, store_new, replace_store, load_entry, load_entries, identify,
}
use envoy_control_plane.ConfigMaps.Registered.{IsKept, replace_store-IsKept}
use envoy_control_plane.ConfigMaps.Replaced.{replacement, replace_store-served}

-- The configuration of each node.
abbrev pub Registry : Type 0
Registry = String → Option ConfigType

abbrev pub update : String → Option ConfigType → Registry → Registry
update id o g = λ key. if id == key then o else g key

-- The same of a round whose resources are valid, with the store that `New` made.
abbrev pub created :
    ConfigType → Outcome (Result (ConfigStore × Bool)) → Outcome (Option ConfigType × Option Error)
created saved panics = panics
created saved (returns (err e)) = returns (none, some e)
created saved (returns (ok made)) = returns (some saved, none)

module _ (r : Runtime) (c : Settings) (i : Issuer) (k : Codec) (t : Templates) (l : Listers) where
  -- What a round leaves for its node, and its error.
  unfoldable pub round : ConfigType → Outcome (Option ConfigType × Option Error)
  unfolding save_resources new
  round config = elim (save_resources k c config) [
    | err e ↦ returns (none, some (wrap e "error in config.SaveResources"))
    | ok saved ↦ created saved (new r c l i k saved)
  ]

  unfoldable pub replay :
      ConfigMap → List (String × String) → Registry → Outcome (Registry × Option Error)
  unfolding round parse_config_yaml identify
  replay cm [] g = returns (g, none)
  replay cm ((node_id, text) ∷ rest) g = elim (parse_config_yaml t node_id text) [
    | panics ↦ panics
    | returns (err e) ↦ returns (g, some e)
    | returns (ok config) ↦ elim (round (identify cm node_id config)) [
      | panics ↦ panics
      | returns (o, some e) ↦ returns (update (identify cm node_id config).id o g, some e)
      | returns (o, none) ↦ replay cm rest (update (identify cm node_id config).id o g)
    ]
  ]

  module _ {x : Xds} where
    created_lem :
        (saved : ConfigType) (m : Outcome (Result (ConfigStore × Bool))) (w : World x)
        → {w' : World x} {e : Option Error} → store_new r c i k t l saved.id m w ≡ returns (w', e)
        → created saved m ≡ returns (replacement (ok saved) e, e)
    created_lem saved panics w q = ground (arith, q)
    created_lem saved (returns (err f)) w q =
        ap (λ b. returns (replacement (ok saved) b.1, b.1)) (returns-injective q)
    created_lem saved (returns (ok (cs, pushes))) w q =
        ap (λ b. returns (replacement (ok saved) b.1, b.1)) (returns-injective q)

    round_lem :
        (config : ConfigType) (w : World x) (res : Result ConfigType)
        → {w' : World x} {e : Option Error} → save_resources k c config ≡ res
        → replace_store r c i k t l config w ≡ returns (w', e)
        → round config ≡ returns (replacement res e, e)
    unfolding round replace_store
    round_lem config w (err f) s q =
        rw (round, s)
          (ap (λ b. returns (none, b.1)) (returns-injective (rw (replace_store, s) at q)))
    round_lem config w (ok saved) s q =
        rw (round, s) (created_lem saved (new r c l i k saved) _ (rw (replace_store, s) at q))

    -- The loop from a registry is that of the abstract registry.
    abbrev pub Replays :
        ConfigMap → List (String × String) → Registry → World x → Option Error → Type 0
    Replays cm texts g w' e =
        (g' : Registry) × (replay cm texts g ≡ returns (g', e))
        × ((key : String) → served w' key ≡ g' key)

    abbrev pub AgreesWith : World x → Registry → Type 0
    AgreesWith w g = (key : String) → served w key ≡ g key

    replace_store-AgreesWith :
        (config : ConfigType) (w w' : World x) (g : Registry) (e : Option Error)
        → IsRegistered w
        → AgreesWith w g
        → replace_store r c i k t l config w ≡ returns (w', e)
        → AgreesWith w' (update config.id (replacement (save_resources k c config) e) g)
    replace_store-AgreesWith config w w' g e h same q = λ key.
        replace_store-served r c i k t l config w w' e key h q
        ∙ ap (λ o. if config.id == key then replacement (save_resources k c config) e else o)
            (same key)

    -- One round, with what is known of the rest of the loop.
    step_lem :
        (cm : ConfigMap) (node_id text : String) (rest : List (String × String)) (w : World x)
        → (g : Registry) (config : ConfigType) (m : Run x) {w' : World x} {e : Option Error}
        → parse_config_yaml t node_id text ≡ returns (ok config)
        → replace_store r c i k t l (identify cm node_id config) w ≡ m
        → IsRegistered w
        → AgreesWith w g
        → ((w₁ : World x) (g₁ : Registry)
            → IsRegistered w₁
            → AgreesWith w₁ g₁
            → load_entries r c i k t l cm rest w₁ ≡ returns (w', e)
            → Replays cm rest g₁ w' e)
        → load_entries r c i k t l cm ((node_id, text) ∷ rest) w ≡ returns (w', e)
        → Replays cm ((node_id, text) ∷ rest) g w' e
    unfolding load_entries load_entry replay
    step_lem cm node_id text rest w g config panics p m h same continue q =
        ground (arith, rw (load_entries, load_entry, p, m) at q)
    step_lem cm node_id text rest w g config (returns (w₁, some f)) p m h same continue q =
        let agrees =
          replace_store-AgreesWith (identify cm node_id config) w w₁ g (some f) h same m in
        subst (λ b. Replays cm ((node_id, text) ∷ rest) g b.0 b.1)
          (returns-injective (rw (load_entries, load_entry, p, m) at q))
          (_, rw (replay, p, round_lem (identify cm node_id config) w _ refl m) refl, agrees)
    step_lem cm node_id text rest w g config (returns (w₁, none)) p m h same continue q =
        let kept = replace_store-IsKept r c i k t l (identify cm node_id config) w h in
        let agrees = replace_store-AgreesWith (identify cm node_id config) w w₁ g none h same m in
        let (g', s, u) =
          continue w₁ _ (subst IsKept m kept) agrees (rw (load_entries, load_entry, p, m) at q) in
        (g', rw (replay, p, round_lem (identify cm node_id config) w _ refl m) s, u)

    entry_lem :
        (cm : ConfigMap) (node_id text : String) (rest : List (String × String)) (w : World x)
        → (g : Registry) (o : Outcome (Result ConfigType)) {w' : World x} {e : Option Error}
        → parse_config_yaml t node_id text ≡ o
        → IsRegistered w
        → AgreesWith w g
        → ((w₁ : World x) (g₁ : Registry)
            → IsRegistered w₁
            → AgreesWith w₁ g₁
            → load_entries r c i k t l cm rest w₁ ≡ returns (w', e)
            → Replays cm rest g₁ w' e)
        → load_entries r c i k t l cm ((node_id, text) ∷ rest) w ≡ returns (w', e)
        → Replays cm ((node_id, text) ∷ rest) g w' e
    unfolding load_entries load_entry replay
    entry_lem cm node_id text rest w g panics p h same continue q =
        ground (arith, rw (load_entries, load_entry, p) at q)
    entry_lem cm node_id text rest w g (returns (err f)) p h same continue q =
        subst (λ b. Replays cm ((node_id, text) ∷ rest) g b.0 b.1)
          (returns-injective (rw (load_entries, load_entry, p) at q)) (g, rw (replay, p) refl, same)
    entry_lem cm node_id text rest w g (returns (ok config)) p h same continue q =
        step_lem cm node_id text rest w g config _ p refl h same continue q

    -- From registered stores, if the loop of NewConfigMap returns, with an error or without, then it
    -- refines the loop on an abstract registry that knows neither objects nor addresses: started from
    -- the configurations of the running stores, that loop returns the same error, and for every node
    -- the configuration of its running store after the loop, or none.
    pub load_entries-replay :
        (cm : ConfigMap) (texts : List (String × String)) (w w' : World x) (g : Registry)
        → (e : Option Error) → IsRegistered w
        → AgreesWith w g
        → load_entries r c i k t l cm texts w ≡ returns (w', e)
        → Replays cm texts g w' e
    unfolding load_entries replay
    load_entries-replay cm [] w w' g e h same q =
        subst (λ b. Replays cm [] g b.0 b.1) (returns-injective q) (g, refl, same)
    load_entries-replay cm ((node_id, text) ∷ rest) w w' g e h same q =
        entry_lem cm node_id text rest w g _ refl h same
          (λ w₁ g₁ h₁ same₁ q₁. load_entries-replay cm rest w₁ w' g₁ e h₁ same₁ q₁) q
