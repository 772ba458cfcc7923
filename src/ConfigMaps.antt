-- ===== src/ConfigMaps.antt =====
-- pkg/configmapsstore/configMapsStore.go: the stores of the entries of a ConfigMap.
pub mod Registered
pub mod Replaced
pub mod Replayed
pub mod Faithful
pub mod Deletion
pub mod Forgotten
pub mod Cleared
pub mod Failing
pub mod Selected
use envoy_control_plane.Prelude.{
  ℕ, String, Bool, true, false, not, ◌&&◌, ◌||◌, Option, none, some, List, [], ◌∷◌, map, length,
  Result, ok, err, Error, wrap, Outcome, returns, panics, any, get_elem?, ◌==◌, if◌then◌else◌,
}
use envoy_control_plane.Prelude.Texts.{join_text, split}
use envoy_control_plane.Prelude.Maps.{Map, lookup, insert, delete, get}
use envoy_control_plane.Kube.{ConfigMap, Listers}
use envoy_control_plane.Config.{KubernetesType, ConfigType, Settings}
use envoy_control_plane.Resources.{Codec}
use envoy_control_plane.Loading.{Templates, parse_config_yaml, save_resources}
use envoy_control_plane.Publish.{Runtime}
use envoy_control_plane.Secrets.{Issuer}
use envoy_control_plane.Xds.{Xds}
use envoy_control_plane.ConfigStore.{ConfigStore, stop}
use envoy_control_plane.ConfigStore.Create.{new}
use envoy_control_plane.World.{World, stop_at, stop_found, allocate}

-- `label[0]` and `label[1]`: an index out of range panics.
abbrev pub match_label : List String → Map String → Outcome Bool
match_label (k ∷ v ∷ _) labels = returns (get "" k labels == v)
match_label _ labels = panics

unfoldable pub check_config_map_labels : Settings → ConfigMap → Outcome Bool
unfolding split get
check_config_map_labels c cm =
    if not (c.config_map_names == "")
    then returns (any (λ name. cm.name == name) (split c.config_map_names b','))
    else match_label (split c.config_map_labels b'=') cm.labels

abbrev pub or_default : String → String → String
or_default default_value s = if s == "" then default_value else s

-- The namespace of the ConfigMap where a selector names none.
abbrev pub with_namespace : String → KubernetesType → KubernetesType
with_namespace namespace k = record k { namespace = or_default namespace k.namespace }

-- The version label, where the configuration uses it and the ConfigMap has it.
unfoldable pub with_version_label : ConfigMap → ConfigType → ConfigType
unfolding get
with_version_label cm config =
    let label = get "" config.version_label_key cm.labels in
    if config.use_version_label && not (label == "")
    then record config { version_label = label; id = join_text config.id (join_text "-" label) }
    else config

-- The assignments to a parsed configuration up to the look-up of its store.
unfoldable pub identify : ConfigMap → String → ConfigType → ConfigType
unfolding with_version_label
identify cm node_id config =
    let id = or_default node_id config.id in
    let labelled = with_version_label cm (record config {
      id = id;
      name = or_default id config.name;
      config_map_name = cm.name;
      config_map_namespace = cm.namespace;
      config_map_annotations = cm.annotations;
    }) in
    record labelled { kubernetes = map (with_namespace cm.namespace) labelled.kubernetes }

-- The outcome of a call that changes the world and may return an error.
abbrev pub Run : Xds → Type 0
Run x = Outcome (World x × Option Error)

module _ (r : Runtime) (c : Settings) (i : Issuer) (k : Codec) (t : Templates) {x : Xds}
    (l : Listers) where
  -- `configstore.New` and `StoreMap.Store`
  abbrev pub store_new : String → Outcome (Result (ConfigStore × Bool)) → World x → Run x
  store_new id panics w = panics
  store_new id (returns (err e)) w = returns (w, some e)
  store_new id (returns (ok (cs, pushes))) w =
      returns
        (record (allocate cs pushes w) { store_map = insert id (length w.heap) w.store_map }, none)

  -- The rest of the round for a configuration with its final id.
  unfoldable pub replace_store : ConfigType → World x → Run x
  unfolding stop_at allocate insert lookup
  replace_store config w =
      let stopped = stop_found (lookup config.id w.store_map) w in
      elim (save_resources k c config) [
        | err e ↦ returns (stopped, some (wrap e "error in config.SaveResources"))
        | ok saved ↦ store_new saved.id (new r c l i k saved) stopped
      ]

  -- One round of the loop over `cm.Data`.
  unfoldable pub load_entry : ConfigMap → String → String → World x → Run x
  unfolding identify replace_store
  load_entry cm node_id text w = elim (parse_config_yaml t node_id text) [
    | panics ↦ panics
    | returns (err e) ↦ returns (w, some e)
    | returns (ok config) ↦ replace_store (identify cm node_id config) w
  ]

  -- The loop, which an error ends.
  unfoldable pub load_entries : ConfigMap → List (String × String) → World x → Run x
  unfolding load_entry
  load_entries cm [] w = returns (w, none)
  load_entries cm ((node_id, text) ∷ rest) w = elim (load_entry cm node_id text w) [
    | panics ↦ panics
    | returns (w', some e) ↦ returns (w', some e)
    | returns (w', none) ↦ load_entries cm rest w'
  ]

  -- `range` over `cm.Data` meets the entries in any order: that of the list.
  unfoldable pub new_config_map : ConfigMap → World x → Run x
  unfolding check_config_map_labels load_entries
  new_config_map cm w = elim (check_config_map_labels c cm) [
    | panics ↦ panics
    | returns false ↦ returns (w, none)
    | returns true ↦ load_entries cm cm.texts w
  ]

abbrev pub belongs_to : ConfigMap → ConfigStore → Bool
belongs_to cm cs =
    cs.config.config_map_name == cm.name && cs.config.config_map_namespace == cm.namespace

module _ {x : Xds} where
  -- The body of the `Range`, with the object of the entry. The sleep between `Stop` and
  -- `ClearSnapshot` changes nothing by itself.
  abbrev pub delete_found : ConfigMap → String → ℕ → Option ConfigStore → World x → World x
  delete_found cm key a none w = w
  delete_found cm key a (some cs) w =
      if belongs_to cm cs
      then (let stopped = stop_at a w in
          record stopped {
            cache = x.clear_snapshot stopped.cache cs.config.id;
            store_map = delete key stopped.store_map;
          })
      else w

  unfoldable pub delete_entries : ConfigMap → Map ℕ → World x → World x
  unfolding stop_at delete
  delete_entries cm [] w = w
  delete_entries cm ((key, a) ∷ rest) w =
      delete_entries cm rest (delete_found cm key a (get_elem? w.heap a) w)

  unfoldable pub delete_config_map : ConfigMap → World x → World x
  unfolding delete_entries
  delete_config_map cm w = delete_entries cm w.store_map w
