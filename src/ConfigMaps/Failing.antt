-- ===== src/ConfigMaps/Failing.antt =====
-- `NewConfigMap` of pkg/configmapsstore/configMapsStore.go with resources that are not valid.
use envoy_control_plane.Prelude.{
  ℕ, some, ◌≡◌, refl, arith, err, returns, Error, wrap, get_elem?, false,
}
use envoy_control_plane.Prelude.Maps.{lookup}
use envoy_control_plane.Kube.{Listers}
use envoy_control_plane.Config.{ConfigType, Settings}
use envoy_control_plane.Resources.{Codec}
use envoy_control_plane.Loading.{Templates, save_resources}
use envoy_control_plane.Publish.{Runtime}
use envoy_control_plane.Secrets.{Issuer}
use envoy_control_plane.Xds.{Xds}
use envoy_control_plane.ConfigStore.{ConfigStore, stop, new_pod}
use envoy_control_plane.World.{World, stop_at}
use envoy_control_plane.World.Stopping.{stop_at-heap, stop_at_lem}
use envoy_control_plane.ConfigMaps.{replace_store}

-- Where the resources of a configuration are not valid, the round for it returns an error, and the
-- store that `StoreMap` had and still has for the node is stopped: it ignores the pods' events.
pub replace_store_stops :
    (r : Runtime) (c : Settings) (i : Issuer) (k : Codec) (t : Templates) {x : Xds} (l : Listers)
    (config : ConfigType) (w : World x) (a : ℕ) (cs : ConfigStore) (e : Error)
    → lookup config.id w.store_map ≡ some a
    → get_elem? w.heap a ≡ some cs
    → save_resources k c config ≡ err e
    → (w' : World x) × (replace_store r c i k t l config w
        ≡ returns (w', some (wrap e "error in config.SaveResources")))
      × (lookup config.id w'.store_map ≡ some a)
      × (get_elem? w'.heap a ≡ some (stop cs))
      × (new_pod r c l (stop cs) ≡ (stop cs, false))
unfolding replace_store new_pod stop
replace_store_stops r c i k t l config w a cs e p q h = (
  stop_at a w,
  rw (replace_store, h, p) refl,
  rw ((stop_at_lem a w).0) p,
  grind (arith, stop_at-heap a a w cs q),
  refl,
)
