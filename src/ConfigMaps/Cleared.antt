-- ===== src/ConfigMaps/Cleared.antt =====
-- What `DeleteConfigMap` of pkg/configmapsstore/configMapsStore.go does to the snapshot cache and
-- to the stores of other ConfigMaps.
use envoy_control_plane.Prelude.{
  ℕ, String, true, Option, none, some, [], ◌∷◌, ◌≡◌, refl, subst, ap, sym, ◌∙◌, arith, Bool-cases,
  get_elem?, ◌==◌, eq_iff, inl, inr, some-injective,
}
use envoy_control_plane.Prelude.Maps.{Map, lookup}
use envoy_control_plane.Kube.{ConfigMap}
use envoy_control_plane.Xds.{Xds, IsCache}
use envoy_control_plane.ConfigStore.{ConfigStore}
use envoy_control_plane.World.{World, stop_at}
use envoy_control_plane.World.Registered.{IsRegistered}
use envoy_control_plane.World.Stopping.{stop_at-kept, stop_at_lem}
use envoy_control_plane.ConfigMaps.{belongs_to, delete_found, delete_entries, delete_config_map}

module _ {x : Xds} (cm : ConfigMap) where
  -- The configuration of every object stays as it is.
  delete_found-kept :
      (key : String) (a b : ℕ) (w : World x) (o : Option ConfigStore) (cs : ConfigStore)
      → get_elem? w.heap b ≡ some cs
      → (kept : ConfigStore) × (get_elem? (delete_found cm key a o w).heap b ≡ some kept)
        × (kept.config ≡ cs.config)
  delete_found-kept key a b w none cs q = (cs, q, refl)
  delete_found-kept key a b w (some found) cs q = elim (Bool-cases (belongs_to cm found)) [
    | inl m ↦ rw m (stop_at-kept a b w q)
    | inr m ↦ rw m (cs, q, refl)
  ]

  module _ (law : IsCache x) (node : String) where
    abbrev IsUnserved : World x → Type 0
    IsUnserved w = x.get_snapshot w.cache node ≡ none

    clear-IsUnserved :
        (cache : x.Cache) (id : String)
        → x.get_snapshot cache node ≡ none
        → x.get_snapshot (x.clear_snapshot cache id) node ≡ none
    clear-IsUnserved cache id h = elim (Bool-cases (id == node)) [
      | inl m ↦ rw ((eq_iff id node).0 m) (law.get_clear_self cache node)
      | inr m ↦ law.get_clear_ne cache id node (λ p. grind (arith, (eq_iff id node).1 p)) ∙ h
    ]

    delete_found-IsUnserved :
        (key : String) (a : ℕ) (w : World x) (o : Option ConfigStore)
        → IsUnserved w
        → IsUnserved (delete_found cm key a o w)
    delete_found-IsUnserved key a w none h = h
    delete_found-IsUnserved key a w (some found) h = elim (Bool-cases (belongs_to cm found)) [
      | inl m ↦ rw (m, (stop_at_lem a w).1) (clear-IsUnserved w.cache found.config.id h)
      | inr m ↦ rw m h
    ]

    delete_entries-IsUnserved :
        (rest : Map ℕ) (w : World x) → IsUnserved w → IsUnserved (delete_entries cm rest w)
    unfolding delete_entries
    delete_entries-IsUnserved [] w h = h
    delete_entries-IsUnserved ((key, a) ∷ rest) w h =
        delete_entries-IsUnserved rest _ (delete_found-IsUnserved key a w _ h)

    -- The round of the node's own entry.
    delete_own-IsUnserved :
        (key : String) (a : ℕ) (w : World x) (o : Option ConfigStore) (cs : ConfigStore)
        → o ≡ some cs
        → cs.config.id ≡ node
        → belongs_to cm cs ≡ true
        → IsUnserved (delete_found cm key a o w)
    delete_own-IsUnserved key a w none cs q e b = cc
    delete_own-IsUnserved key a w (some found) cs q e b =
        rw
          (
            subst (λ z. belongs_to cm z ≡ true) (sym (some-injective q)) b,
            ap (λ z. z.config.id) (some-injective q) ∙ e,
          )
          (law.get_clear_self (stop_at a w).cache node)

    delete_entries_clears :
        (rest : Map ℕ) (a : ℕ) (w : World x) (cs : ConfigStore)
        → lookup node rest ≡ some a
        → get_elem? w.heap a ≡ some cs
        → cs.config.id ≡ node
        → belongs_to cm cs ≡ true
        → IsUnserved (delete_entries cm rest w)
    unfolding delete_entries lookup
    delete_entries_clears [] a w cs p q e b = cc
    delete_entries_clears ((key, c) ∷ rest) a w cs p q e b = elim (Bool-cases (key == node)) [
      | inl m ↦
          delete_entries-IsUnserved rest _ (delete_own-IsUnserved key c w _ cs (grind arith) e b)
      | inr m ↦
          let (kept, q', k) = delete_found-kept key c a w (get_elem? w.heap c) cs q in
          delete_entries_clears rest a _ kept (grind arith) q' (ap (λ z. z.id) k ∙ e) (grind arith)
    ]

  -- From registered stores, `DeleteConfigMap` leaves no snapshot in the cache for a node whose
  -- store belongs to the ConfigMap, if the cache forgets the snapshots that it clears.
  pub delete_config_map_clears :
      IsCache x
      → (w : World x) (node : String) (a : ℕ) (cs : ConfigStore) → IsRegistered w
      → lookup node w.store_map ≡ some a
      → get_elem? w.heap a ≡ some cs
      → belongs_to cm cs ≡ true
      → x.get_snapshot (delete_config_map cm w).cache node ≡ none
  unfolding delete_config_map
  delete_config_map_clears law w node a cs h p q b =
      let (found, f, e) = h.stored node a p in
      delete_entries_clears law node w.store_map a w cs p q
        (ap (λ z. z.config.id) (some-injective (sym q ∙ f)) ∙ e) b
