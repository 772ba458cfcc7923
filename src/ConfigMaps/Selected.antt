-- ===== src/ConfigMaps/Selected.antt =====
-- `checkConfigMapLabels` of pkg/configmapsstore/configMapsStore.go: which ConfigMaps the settings
-- select.
use Prim.Native.Char.{Char, code}
use envoy_control_plane.Prelude.{
  ◌≡◌, ap, ◌∙◌, String, Bool, true, false, List, [], ◌∷◌, returns, any, ◌==◌, All,
}
use envoy_control_plane.Prelude.Maps.{get}
use envoy_control_plane.Prelude.Texts.{split}
use envoy_control_plane.Prelude.Texts.Splitting.{is_free, join_parts, split-join_parts}
use envoy_control_plane.Kube.{ConfigMap}
use envoy_control_plane.Config.{Settings}
use envoy_control_plane.ConfigMaps.{match_label, check_config_map_labels}

-- What the flags `configmap.names` and `configmap.labels` mean: some names, or a label.
pub data Selector : Type 0 where
  by_names : (name : String) (names : List String) → Selector
  by_label : (key value : String) → Selector

abbrev pub selects : Selector → ConfigMap → Bool
selects (by_names name names) cm = any (λ n. cm.name == n) (name ∷ names)
selects (by_label key value) cm = get "" key cm.labels == value

abbrev pub AreFree : Char → List String → Type 0
AreFree separator = All (λ s. is_free (code separator) s ≡ true)

-- The flags write the selector.
abbrev pub Writes : Settings → Selector → Type 0
Writes c (by_names name names) =
    (c.config_map_names ≡ join_parts "," name names)
    × ((c.config_map_names == "") ≡ false)
    × AreFree "," (name ∷ names)
Writes c (by_label key value) =
    ((c.config_map_names == "") ≡ true)
    × (c.config_map_labels ≡ join_parts "=" key (value ∷ []))
    × AreFree "=" (key ∷ value ∷ [])

-- Where the flags write a selector, names without a comma or a key and a value without an equals
-- sign, checkConfigMapLabels does not panic and accepts exactly the ConfigMaps that it selects: those
-- with one of the names, or those whose label, "" if it is missing, is the value.
pub check_config_map_labels-selects :
    (c : Settings) (selector : Selector) (cm : ConfigMap)
    → Writes c selector
    → check_config_map_labels c cm ≡ returns (selects selector cm)
unfolding check_config_map_labels
check_config_map_labels-selects c (by_names name names) cm (same, nonempty, free) = rw nonempty (
    ap (λ l. returns (any (λ n. cm.name == n) l))
      (ap (λ s. split s b',') same ∙ split-join_parts "," name names free))
check_config_map_labels-selects c (by_label key value) cm (empty, same, free) = rw empty (
    ap (λ l. match_label l cm.labels)
      (ap (λ s. split s b'=') same ∙ split-join_parts "=" key (value ∷ []) free))
