-- ===== src/Examples/Selecting.antt =====
-- The theorem on the ConfigMaps that the settings select (pkg/configmapsstore), at two names.
use envoy_control_plane.Prelude.{◌≡◌, refl, [], ◌∷◌, returns}
use envoy_control_plane.Config.{Settings}
use envoy_control_plane.ConfigMaps.{check_config_map_labels}
use envoy_control_plane.ConfigMaps.Selected.{
  Selector, by_names, selects, Writes, check_config_map_labels-selects,
}
use envoy_control_plane.Examples.{settings}
use envoy_control_plane.Examples.Stores.{config_map}

unfoldable naming : Settings
unfolding settings
naming = record settings { config_map_names = "other,envoy" }

abbrev two_names : Selector
two_names = by_names "other" ("envoy" ∷ [])

naming-Writes : Writes naming two_names
unfolding naming
naming-Writes = (refl, refl, (refl, (refl, tt)))

check_config_map_labels-selects_example :
    check_config_map_labels naming config_map ≡ returns (selects two_names config_map)
check_config_map_labels-selects_example =
    check_config_map_labels-selects naming two_names config_map naming-Writes
