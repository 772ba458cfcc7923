-- ===== src/ConfigMaps/Forgotten.antt =====
-- `DeleteConfigMap` of pkg/configmapsstore/configMapsStore.go, by the configurations of the running
-- stores.
use envoy_control_plane.Prelude.{
  ℕ, String, Bool, true, false, Option, none, some, [], ◌∷◌, ◌≡◌, refl, sym, ap, ◌∙◌, arith,
  Bool-cases, get_elem?, ◌==◌, ◌&&◌, eq_iff, inl, inr, if◌then◌else◌,
}
use envoy_control_plane.Prelude.Maps.{Map, lookup, delete, lookup-delete}
use envoy_control_plane.Kube.{ConfigMap}
use envoy_control_plane.Config.{ConfigType}
use envoy_control_plane.Xds.{Xds}
use envoy_control_plane.ConfigStore.{ConfigStore}
use envoy_control_plane.World.{World, stop_at}
use envoy_control_plane.World.Stopping.{stop_at_lem}
use envoy_control_plane.World.Registered.{IsRegistered}
use envoy_control_plane.World.Served.{served, served_at, running_config, served_at-stop_at}
use envoy_control_plane.ConfigMaps.{belongs_to, delete_found, delete_entries, delete_config_map}
use envoy_control_plane.ConfigMaps.Deletion.{
  IsDeleting, delete_found-IsDeleting, delete_entries-IsDeleting, started_deletion,
}

-- The configuration of a node, unless it is of the ConfigMap.
abbrev pub forget : ConfigMap → Option ConfigType → Option ConfigType
forget cm none = none
forget cm (some config) =
    if config.config_map_name == cm.name && config.config_map_namespace == cm.namespace
    then none
    else some config

forget-running :
    (cm : ConfigMap) (cs : ConfigStore)
    → belongs_to cm cs ≡ true
    → forget cm (running_config (some cs)) ≡ none
forget-running cm cs b = ground arith

forget-other :
    (cm : ConfigMap) (cs : ConfigStore)
    → (cs.is_stoped ≡ false → belongs_to cm cs ≡ true → ⊥)
    → forget cm (running_config (some cs)) ≡ running_config (some cs)
forget-other cm cs f = ground (arith, f)

module _ {x : Xds} (cm : ConfigMap) where
  -- The entry's store is stopped and leaves the map and the cache.
  abbrev removed : String → ℕ → x.Cache → World x → World x
  removed key a cache w = record (stop_at a w) {
    cache = cache;
    store_map = delete key (stop_at a w).store_map;
  }

  served_at-removed :
      (key j : String) (a : ℕ) (w : World x) (t : Bool)
      → (key == j) ≡ t
      → IsRegistered w
      → lookup key w.store_map ≡ some a
      → served_at (stop_at a w) (if t then none else lookup j w.store_map)
        ≡ (if t then none else served_at w (lookup j w.store_map))
  served_at-removed key j a w true d h p = refl
  served_at-removed key j a w false d h p =
      served_at-stop_at key j a (lookup j w.store_map) w h p refl ∙ rw d refl

  served-removed :
      (key j : String) (a : ℕ) (w : World x) (cache : x.Cache)
      → IsRegistered w
      → lookup key w.store_map ≡ some a
      → served (removed key a cache w) j ≡ (if key == j then none else served w j)
  unfolding served
  served-removed key j a w cache h p =
      rw ((stop_at_lem a w).0, lookup-delete key j w.store_map)
        (served_at-removed key j a w (key == j) refl h p)

  forget-removed :
      (key j : String) (a : ℕ) (w : World x) (cs : ConfigStore) (cache : x.Cache)
      → IsRegistered w
      → lookup key w.store_map ≡ some a
      → get_elem? w.heap a ≡ some cs
      → belongs_to cm cs ≡ true
      → forget cm (served (removed key a cache w) j) ≡ forget cm (served w j)
  unfolding served
  forget-removed key j a w cs cache h p e b = elim (Bool-cases (key == j)) [
    | inr d ↦ rw (served-removed key j a w cache h p, d) refl
    | inl d ↦
        rw (served-removed key j a w cache h p, d)
          (sym (
            ap (λ o. forget cm (served_at w o))
              (ap (λ n. lookup n w.store_map) (sym ((eq_iff key j).0 d)) ∙ p)
            ∙ ap (λ o. forget cm (running_config o)) e
            ∙ forget-running cm cs b))
  ]

  delete_found-forget :
      (key j : String) (a : ℕ) (w : World x)
      → IsRegistered w
      → lookup key w.store_map ≡ some a
      → forget cm (served (delete_found cm key a (get_elem? w.heap a) w) j) ≡ forget cm (served w j)
  delete_found-forget key j a w h p = go (get_elem? w.heap a) refl
    where
      go :
          (o : Option ConfigStore)
          → get_elem? w.heap a ≡ o
          → forget cm (served (delete_found cm key a o w) j) ≡ forget cm (served w j)
      go none e = refl
      go (some cs) e = elim (Bool-cases (belongs_to cm cs)) [
        | inl b ↦ rw b (forget-removed key j a w cs _ h p e b)
        | inr b ↦ rw b refl
      ]

  delete_entries-forget :
      (j : String) (rest : Map ℕ) (w : World x)
      → IsDeleting cm rest w
      → forget cm (served (delete_entries cm rest w) j) ≡ forget cm (served w j)
  unfolding delete_entries lookup
  delete_entries-forget j [] w h = refl
  delete_entries-forget j ((key, a) ∷ rest) w h =
      delete_entries-forget j rest _ (delete_found-IsDeleting cm key a rest w h)
      ∙ delete_found-forget key j a w h.registered
          (h.present key a (ground (arith, eq_iff key key)))

  served_at-forgotten :
      (w : World x)
      → IsDeleting cm [] w
      → (key : String) (o : Option ℕ) → lookup key w.store_map ≡ o
      → forget cm (served_at w o) ≡ served_at w o
  unfolding lookup
  served_at-forgotten w h key none p = refl
  served_at-forgotten w h key (some a) p =
      let (cs, q, s) = h.registered.stored key a p in
      rw q (forget-other cm cs (λ n b. grind (arith, h.pending a cs q n b)))

  -- From registered stores, `DeleteConfigMap` leaves every node the configuration of its running
  -- store, except that nothing is left to a node whose configuration is of the ConfigMap.
  pub served-delete_config_map :
      (w : World x) (key : String)
      → IsRegistered w
      → served (delete_config_map cm w) key ≡ forget cm (served w key)
  unfolding delete_config_map served
  served-delete_config_map w key h =
      let d = started_deletion cm w h in
      sym (served_at-forgotten _ (delete_entries-IsDeleting cm w.store_map w d) key _ refl)
      ∙ delete_entries-forget key w.store_map w d
