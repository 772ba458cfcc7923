-- ===== src/ConfigMaps/Registered.antt =====
-- `NewConfigMap` of pkg/configmapsstore/configMapsStore.go and the stores of the process.
use envoy_control_plane.Prelude.{
  ℕ, String, Bool, true, false, Option, none, some, List, [], ◌∷◌, ◌≡◌, refl, subst, ap, Result, ok,
  err, Outcome, returns, panics, wrap, Error, returns-injective, get_elem?, length, ◌==◌,
}
use envoy_control_plane.Kube.{ConfigMap, Listers}
use envoy_control_plane.Config.{ConfigType, Settings}
use envoy_control_plane.Resources.{Codec}
use envoy_control_plane.Prelude.Maps.{lookup, insert}
use envoy_control_plane.Loading.{Templates, parse_config_yaml, save_resources}
use envoy_control_plane.Publish.{Runtime}
use envoy_control_plane.Secrets.{Issuer}
use envoy_control_plane.Xds.{Xds}
use envoy_control_plane.ConfigStore.{ConfigStore}
use envoy_control_plane.ConfigStore.Create.{new}
use envoy_control_plane.ConfigStore.Started.{save_resources-id, IsStarted, new-IsStarted}
use envoy_control_plane.World.{allocate, World, stop_found}
use envoy_control_plane.World.Registered.{
  IsRegistered, stop_found-IsRegistered, stop_found-free, register-IsRegistered,
}
use envoy_control_plane.ConfigMaps.{
  Run, store_new, replace_store, load_entry, load_entries, new_config_map, identify,
  check_config_map_labels,
}

abbrev pub IsKept : {x : Xds} → Run x → Type 0
IsKept panics = Unit
IsKept (returns (w, e)) = IsRegistered w

module _ (r : Runtime) (c : Settings) (i : Issuer) (k : Codec) (t : Templates) {x : Xds}
    (l : Listers) where
  store_new-IsKept :
      (config : ConfigType) (made : Outcome (Result (ConfigStore × Bool))) (w : World x)
      → ((res : Result (ConfigStore × Bool)) → made ≡ returns res → IsStarted r c l i k config res)
      → IsRegistered w
      → ((a : ℕ) (old : ConfigStore)
          → get_elem? w.heap a ≡ some old
          → old.is_stoped ≡ false
          → (old.config.id == config.id) ≡ false)
      → IsKept (store_new r c i k t l config.id made w)
  store_new-IsKept config panics w f h free = tt
  store_new-IsKept config (returns (err e)) w f h free = h
  store_new-IsKept config (returns (ok (cs, pushes))) w f h free =
      let (p, n) = f _ refl in
      subst
        (λ id.
          IsRegistered
            (record (allocate cs pushes w) { store_map = insert id (length w.heap) w.store_map }))
        (ap (λ z. z.id) p)
        (register-IsRegistered cs pushes w h (λ a old q m. rw p (free a old q m)))

  pub replace_store-IsKept :
      (config : ConfigType) (w : World x)
      → IsRegistered w
      → IsKept (replace_store r c i k t l config w)
  unfolding replace_store
  replace_store-IsKept config w h = go (save_resources k c config) refl
    where
      go :
          (res : Result ConfigType)
          → save_resources k c config ≡ res
          → IsKept (elim res [
            | err e ↦ returns (
              stop_found (lookup config.id w.store_map) w,
              some (wrap e "error in config.SaveResources"),
            )
            | ok saved ↦
                store_new r c i k t l saved.id
                  (new r c l i k saved)
                  (stop_found (lookup config.id w.store_map) w)
          ])
      go (err e) q = stop_found-IsRegistered _ w h
      go (ok saved) q =
          store_new-IsKept saved (new r c l i k saved) _ (λ res. new-IsStarted r c l i k saved)
            (stop_found-IsRegistered _ w h)
            (rw (save_resources-id k c config saved q) (stop_found-free config.id w _ h refl))

  load_entry-IsKept :
      (cm : ConfigMap) (node_id text : String) (w : World x)
      → IsRegistered w
      → IsKept (load_entry r c i k t l cm node_id text w)
  unfolding load_entry
  load_entry-IsKept cm node_id text w h = go (parse_config_yaml t node_id text)
    where
      go :
          (o : Outcome (Result ConfigType))
          → IsKept (elim o [
            | panics ↦ panics
            | returns (err e) ↦ returns (w, some e)
            | returns (ok config) ↦ replace_store r c i k t l (identify cm node_id config) w
          ])
      go panics = tt
      go (returns (err e)) = h
      go (returns (ok config)) = replace_store-IsKept (identify cm node_id config) w h

  load_entries-IsKept :
      (cm : ConfigMap) (texts : List (String × String)) (w : World x)
      → IsRegistered w
      → IsKept (load_entries r c i k t l cm texts w)
  unfolding load_entries
  load_entries-IsKept cm [] w h = h
  load_entries-IsKept cm ((node_id, text) ∷ rest) w h =
      go (load_entry r c i k t l cm node_id text w) (load_entry-IsKept cm node_id text w h)
        (load_entries-IsKept cm rest)
    where
      go :
          (run : Run x)
          → IsKept run
          → ((w' : World x) → IsRegistered w' → IsKept (load_entries r c i k t l cm rest w'))
          → IsKept (elim run [
            | panics ↦ panics
            | returns (w', some e) ↦ returns (w', some e)
            | returns (w', none) ↦ load_entries r c i k t l cm rest w'
          ])
      go panics q f = tt
      go (returns (w', some e)) q f = q
      go (returns (w', none)) q f = f w' q

  -- Where each key of `StoreMap` leads to a store of its node and each running store is in the
  -- map, so it is after `NewConfigMap` returned, with an error or without: no node has two running
  -- stores.
  pub new_config_map-IsRegistered :
      (cm : ConfigMap) (w w' : World x) (e : Option Error)
      → IsRegistered w
      → new_config_map r c i k t l cm w ≡ returns (w', e)
      → IsRegistered w'
  unfolding new_config_map
  new_config_map-IsRegistered cm w w' e h q = go (check_config_map_labels c cm) q
    where
      go :
          (o : Outcome Bool)
          → Path
              (Run x)
              (elim o [
                | panics ↦ panics
                | returns false ↦ returns (w, none)
                | returns true ↦ load_entries r c i k t l cm cm.texts w
              ])
              (returns (w', e))
          → IsRegistered w'
      go panics q = cc
      go (returns false) q = rw (← ap (λ p. p.0) (returns-injective q)) h
      go (returns true) q = subst IsKept q (load_entries-IsKept cm cm.texts w h)
