-- ===== src/ConfigMaps/Replaced.antt =====
-- pkg/configmapsstore/configMapsStore.go: a round of NewConfigMap and DeleteConfigMap, by the
-- configurations of the running stores.
use envoy_control_plane.Prelude.{
  ◌≡◌, refl, ap, sym, ◌∙◌, String, Bool, true, false, Option, none, some, Result, ok, err, Error,
  Outcome, returns, panics, returns-injective, ◌==◌, if◌then◌else◌, arith, subst,
}
use envoy_control_plane.Prelude.Maps.{lookup}
use envoy_control_plane.Kube.{Listers}
use envoy_control_plane.Config.{ConfigType, Settings}
use envoy_control_plane.Resources.{Codec}
use envoy_control_plane.Loading.{Templates, save_resources}
use envoy_control_plane.Publish.{Runtime}
use envoy_control_plane.Secrets.{Issuer}
use envoy_control_plane.Xds.{Xds}
use envoy_control_plane.ConfigStore.{ConfigStore}
use envoy_control_plane.ConfigStore.Create.{new}
use envoy_control_plane.ConfigStore.Started.{save_resources-id, IsStarted, new-IsStarted}
use envoy_control_plane.World.{World, stop_found}
use envoy_control_plane.World.Registered.{IsRegistered, stop_found-IsRegistered}
use envoy_control_plane.World.Served.{served, served-stop_found, served-register}
use envoy_control_plane.ConfigMaps.{store_new, replace_store}

-- What is served to the node of a configuration: the configuration with its resources, if there was
-- no error, and otherwise nothing.
abbrev pub replacement : Result ConfigType → Option Error → Option ConfigType
replacement (ok saved) none = some saved
replacement (ok saved) (some e) = none
replacement (err f) e = none

merged :
    {a s : Option ConfigType} (z g : Option ConfigType) (t : Bool)
    → a ≡ (if t then z else s)
    → s ≡ (if t then none else g)
    → a ≡ (if t then z else g)
merged z g true p q = p
merged z g false p q = p ∙ q

module _ (r : Runtime) (c : Settings) (i : Issuer) (k : Codec) (t : Templates) {x : Xds}
    (l : Listers) where
  store_new-served :
      (config : ConfigType) (key : String) (m : Outcome (Result (ConfigStore × Bool)))
      → (w : World x) (before : Option ConfigType) {w' : World x} {e : Option Error}
      → ((res : Result (ConfigStore × Bool)) → m ≡ returns res → IsStarted r c l i k config res)
      → IsRegistered w
      → served w key ≡ (if config.id == key then none else before)
      → store_new r c i k t l config.id m w ≡ returns (w', e)
      → served w' key ≡ (if config.id == key then replacement (ok config) e else before)
  store_new-served config key panics w before f h free q = ground (arith, q)
  store_new-served config key (returns (err g)) w before f h free q =
      subst
        (λ b. served b.0 key ≡ (if config.id == key then replacement (ok config) b.1 else before))
        (returns-injective q) free
  store_new-served config key (returns (ok (cs, pushes))) w before f h free q =
      let (p, runs) = f _ refl in
      subst
        (λ b. served b.0 key ≡ (if config.id == key then replacement (ok config) b.1 else before))
        (returns-injective q)
        (merged (some config) before (config.id == key)
          (served-register config.id key cs pushes w h runs
            ∙ ap (λ d. if config.id == key then some d else served w key) p)
          free)

  replaced :
      (config : ConfigType) (key : String) (w : World x) (res : Result ConfigType)
      → {w' : World x} {e : Option Error} → IsRegistered w
      → save_resources k c config ≡ res
      → replace_store r c i k t l config w ≡ returns (w', e)
      → served w' key ≡ (if config.id == key then replacement res e else served w key)
  unfolding replace_store
  replaced config key w (err g) h s q =
      subst (λ b. served b.0 key ≡ (if config.id == key then none else served w key))
        (returns-injective (rw (replace_store, s) at q))
        (served-stop_found config.id key (lookup config.id w.store_map) w h refl)
  replaced config key w (ok saved) {w'} {e} h s q =
      let id = save_resources-id k c config saved s in
      subst (λ n. served w' key ≡ (if n == key then replacement (ok saved) e else served w key)) id
        (store_new-served saved key (new r c l i k saved) _ (served w key)
          (λ res. new-IsStarted r c l i k saved)
          (stop_found-IsRegistered (lookup config.id w.store_map) w h)
          (subst
            (λ n.
              served (stop_found (lookup config.id w.store_map) w) key
              ≡ (if n == key then none else served w key))
            (sym id) (served-stop_found config.id key (lookup config.id w.store_map) w h refl))
          (rw (replace_store, s) at q))

  -- From registered stores, where each node is taken to have the configuration of its running store or
  -- none, a round of NewConfigMap that returns is one update of that map: the node of the
  -- configuration has the configuration with its resources after a success and none after an error,
  -- and every other node has what it had.
  pub replace_store-served :
      (config : ConfigType) (w w' : World x) (e : Option Error) (key : String)
      → IsRegistered w
      → replace_store r c i k t l config w ≡ returns (w', e)
      → served w' key
        ≡ (if config.id == key then replacement (save_resources k c config) e else served w key)
  replace_store-served config w w' e key h q =
      replaced config key w (save_resources k c config) h refl q
