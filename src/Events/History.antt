-- ===== src/Events/History.antt =====
-- internal/internal.go and pkg/configmapsstore/configMapsStore.go: the process as its history of
-- events of ConfigMaps, without objects, addresses, goroutines, pods and endpoints.
use envoy_control_plane.Prelude.{
  String, Bool, true, false, Option, none, List, [], ◌∷◌, ◌≡◌, refl, ap, sym, ◌∙◌, subst, Error,
  Outcome, returns, panics, returns-injective, if◌then◌else◌, ◌&&◌, arith,
}
use envoy_control_plane.Kube.{ConfigMap, Listers}
use envoy_control_plane.Config.{Settings}
use envoy_control_plane.Resources.{Codec}
use envoy_control_plane.Loading.{Templates}
use envoy_control_plane.Publish.{Runtime}
use envoy_control_plane.Secrets.{Issuer}
use envoy_control_plane.Xds.{Xds}
use envoy_control_plane.World.{World}
use envoy_control_plane.World.Registered.{IsRegistered}
use envoy_control_plane.World.Served.{served}
use envoy_control_plane.World.Changes.{served-IsStable}
use envoy_control_plane.ConfigMaps.{Run, new_config_map, check_config_map_labels}
use envoy_control_plane.ConfigMaps.Replayed.{Registry, replay, load_entries-replay}
use envoy_control_plane.ConfigMaps.Forgotten.{forget, served-delete_config_map}
use envoy_control_plane.Events.{on_config_update, same_map}
use envoy_control_plane.Events.Reachable.{
  Step, new_config, update_config, delete_config, background, Background-keeps, Reachable, here,
  step, Reachable-IsRegistered,
}

-- The events of ConfigMaps, with the listers that NewConfigMap calls.
pub data Event : Type 0 where
  added : Listers → ConfigMap → Event
  updated : Listers → ConfigMap → ConfigMap → Event
  deleted : ConfigMap → Event

abbrev first : Outcome (Registry × Option Error) → Outcome Registry
first panics = panics
first (returns (g, e)) = returns g

-- The registry is that of the running stores.
abbrev pub Agrees : {x : Xds} → World x → Outcome Registry → Type 0
Agrees w o = (g : Registry) × (o ≡ returns g) × ((key : String) → served w key ≡ g key)

module _ (r : Runtime) (c : Settings) (i : Issuer) (k : Codec) (t : Templates) where
  -- The new ConfigMap, if the process watches it.
  unfoldable pub add_entries : Listers → ConfigMap → Registry → Outcome Registry
  unfolding check_config_map_labels replay
  add_entries l cm g = elim (check_config_map_labels c cm) [
    | panics ↦ panics
    | returns false ↦ returns g
    | returns true ↦ first (replay r c i k t l cm cm.texts g)
  ]

  unfoldable pub apply_event : Event → Registry → Outcome Registry
  unfolding add_entries same_map
  apply_event (added l cm) g = add_entries l cm g
  apply_event (updated l old cur) g =
      if same_map cur.texts old.texts && same_map cur.annotations old.annotations
      then returns g
      else add_entries l cur g
  apply_event (deleted cm) g = returns (λ key. forget cm (g key))

  -- A history, the last event first.
  unfoldable pub apply_history : List Event → Registry → Outcome Registry
  unfolding apply_event
  apply_history [] g = returns g
  apply_history (event ∷ before) g = elim (apply_history before g) [
    | panics ↦ panics
    | returns g' ↦ apply_event event g'
  ]

  module _ {x : Xds} where
    -- The events of ConfigMaps among the steps of a run.
    unfoldable pub events_of : {w w' : World x} → Step r c i k t x w w' → List Event → List Event
    events_of (new_config l cm q) before = added l cm ∷ before
    events_of (update_config l old cur q) before = updated l old cur ∷ before
    events_of (delete_config cm) before = deleted cm ∷ before
    events_of (background s) before = before

    unfoldable pub history : {start w : World x} → Reachable r c i k t x start w → List Event
    unfolding events_of
    history here = []
    history (step p s) = events_of s (history p)

    add_entries-Agrees :
        (l : Listers) (cm : ConfigMap) (w w' : World x) (g : Registry) (e : Option Error)
        → IsRegistered w
        → ((key : String) → served w key ≡ g key)
        → new_config_map r c i k t l cm w ≡ returns (w', e)
        → Agrees w' (add_entries l cm g)
    unfolding add_entries new_config_map
    add_entries-Agrees l cm w w' g e h same q = go (check_config_map_labels c cm) refl
      where
        go : (o : Outcome Bool) → check_config_map_labels c cm ≡ o → Agrees w' (add_entries l cm g)
        go panics p = ground (arith, rw (new_config_map, p) at q)
        go (returns false) p =
            subst (λ b. Agrees b.0 (add_entries l cm g))
              (returns-injective (rw (new_config_map, p) at q)) (g, rw (add_entries, p) refl, same)
        go (returns true) p =
            let (g', s, u) =
              load_entries-replay r c i k t l cm cm.texts w w' g e h same
                (rw (new_config_map, p) at q) in
            (g', rw (add_entries, p, s) refl, u)

    on_config_update-Agrees :
        (l : Listers) (old cur : ConfigMap) (w w' : World x) (g : Registry) (e : Option Error)
        → IsRegistered w
        → ((key : String) → served w key ≡ g key)
        → on_config_update r c i k t l old cur w ≡ returns (w', e)
        → Agrees w' (apply_event (updated l old cur) g)
    unfolding apply_event on_config_update
    on_config_update-Agrees l old cur w w' g e h same q =
        go (same_map cur.texts old.texts && same_map cur.annotations old.annotations) q
      where
        go :
            (b : Bool)
            → Path
                (Run x)
                (if b then returns (w, none) else new_config_map r c i k t l cur w)
                (returns (w', e))
            → Agrees w' (if b then returns g else add_entries l cur g)
        go true p = subst (λ b. Agrees b.0 (returns g)) (returns-injective p) (g, refl, same)
        go false p = add_entries-Agrees l cur w w' g e h same p

    Step-Agrees :
        (before : List Event) (g₀ g : Registry) {w w' : World x} (s : Step r c i k t x w w')
        → IsRegistered w
        → apply_history before g₀ ≡ returns g
        → ((key : String) → served w key ≡ g key)
        → Agrees w' (apply_history (events_of s before) g₀)
    unfolding apply_history events_of apply_event
    Step-Agrees before g₀ g (new_config l cm q) h p same =
        rw p (add_entries-Agrees l cm _ _ g _ h same q)
    Step-Agrees before g₀ g (update_config l old cur q) h p same =
        rw p (on_config_update-Agrees l old cur _ _ g _ h same q)
    Step-Agrees before g₀ g (delete_config cm {w}) h p same =
        rw p (_, refl, λ key. served-delete_config_map cm w key h ∙ ap (forget cm) (same key))
    Step-Agrees before g₀ g (background s) h p same =
        (g, p, Background-keeps r c i k t x (served-IsStable g) s same)

    -- However events, jobs and goroutines follow on each other, from registered stores whose running
    -- configurations an abstract registry has, the process refines that registry: the history of its
    -- events of ConfigMaps alone, each with the listers that it met, applied to the registry, gives
    -- for every node the configuration of its running store or none. Events of pods and of
    -- endpoints, the jobs and the order of the goroutines do not change it.
    pub history_refines :
        (start w : World x) (g : Registry) (p : Reachable r c i k t x start w)
        → IsRegistered start
        → ((key : String) → served start key ≡ g key)
        → Agrees w (apply_history (history p) g)
    unfolding history apply_history
    history_refines start w g here h same = (g, refl, same)
    history_refines start w g (step p s) h same =
        let (g', e, u) = history_refines start _ g p h same in
        Step-Agrees (history p) g g' s (Reachable-IsRegistered r c i k t x p h) e u

    same_served :
        (w w' : World x) (o o' : Outcome Registry)
        → o ≡ o'
        → Agrees w o
        → Agrees w' o'
        → (key : String) → served w key ≡ served w' key
    same_served w w' o o' e (g, p, same) (g', p', same') key =
        same key ∙ ap (λ f. f key) (returns-injective (sym p ∙ e ∙ p')) ∙ sym (same' key)

    -- Two runs of the process from the same registered stores that saw the same events of ConfigMaps
    -- in the same order, with the same answers of the listers to these, run the same configurations
    -- for all nodes, whatever pods, endpoints, jobs and goroutines each met between them.
    pub same_history :
        (start w w' : World x) (p : Reachable r c i k t x start w)
        → (q : Reachable r c i k t x start w') → IsRegistered start
        → history p ≡ history q
        → (key : String) → served w key ≡ served w' key
    same_history start w w' p q h e =
        same_served w w' _ _ (ap (λ es. apply_history es (served start)) e)
          (history_refines start w (served start) p h (λ key. refl))
          (history_refines start w' (served start) q h (λ key. refl))
