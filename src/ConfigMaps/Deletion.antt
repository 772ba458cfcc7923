-- ===== src/ConfigMaps/Deletion.antt =====
-- `DeleteConfigMap` of pkg/configmapsstore/configMapsStore.go and the stores of the process.
use envoy_control_plane.Prelude.{
  ℕ, String, true, false, Option, none, some, [], ◌∷◌, ◌≡◌, refl, arith, nat_beq, Bool-cases,
  get_elem?, ◌==◌, eq_iff, inl, inr,
}
use envoy_control_plane.Prelude.Maps.{
  Map, lookup, delete, lookup-delete, HasUniqueKeys, HasUniqueKeys-delete, lookup-IsAbsent,
}
use envoy_control_plane.Kube.{ConfigMap}
use envoy_control_plane.Xds.{Xds}
use envoy_control_plane.ConfigStore.{ConfigStore}
use envoy_control_plane.World.{World, stop_at}
use envoy_control_plane.World.Stopping.{stop_at-running, stop_at_lem}
use envoy_control_plane.World.Registered.{IsRegistered, IsStoreOf-stop_at}
use envoy_control_plane.ConfigMaps.{belongs_to, delete_found, delete_entries, delete_config_map}

-- What the rest of the `Range` over `StoreMap` starts from: its entries are still in the map, and
-- the running stores of the ConfigMap are among them.
pub record IsDeleting {x : Xds} (cm : ConfigMap) (rest : Map ℕ) (w : World x) : Type 0 where
  pub registered : IsRegistered w
  pub unique : HasUniqueKeys rest
  pub present : (key : String) (a : ℕ) → lookup key rest ≡ some a → lookup key w.store_map ≡ some a
  pub pending :
      (a : ℕ) (cs : ConfigStore)
      → get_elem? w.heap a ≡ some cs
      → cs.is_stoped ≡ false
      → belongs_to cm cs ≡ true
      → lookup cs.config.id rest ≡ some a

module _ {x : Xds} (cm : ConfigMap) (key : String) (a : ℕ) (rest : Map ℕ) (w : World x)
    (h : IsDeleting cm ((key, a) ∷ rest) w) where
  present_rest :
      (j : String) (b : ℕ)
      → lookup j rest ≡ some b
      → ((key == j) ≡ false) × (lookup j w.store_map ≡ some b)
  unfolding lookup
  present_rest j b q =
      grind (arith, h.present j b, lookup-IsAbsent key rest h.unique.0, eq_iff key j)

  -- An object that is not the store of the entry.
  pending_rest :
      (b : ℕ) (cs : ConfigStore)
      → get_elem? w.heap b ≡ some cs
      → cs.is_stoped ≡ false
      → belongs_to cm cs ≡ true
      → nat_beq a b ≡ false
      → lookup cs.config.id rest ≡ some b
  unfolding lookup
  pending_rest b cs q n m d = grind (arith, h.pending b cs q n m, eq_iff key cs.config.id)

  passed-IsDeleting :
      ((cs : ConfigStore) → get_elem? w.heap a ≡ some cs → belongs_to cm cs ≡ false)
      → IsDeleting cm rest w
  passed-IsDeleting f = record {
    registered = h.registered;
    unique = h.unique.1;
    present = λ j b q. (present_rest j b q).1;
    pending = λ b cs q n m.
        pending_rest b cs q n m
          elim (Bool-cases (nat_beq a b)) [ inl e ↦ grind (arith, f cs) | inr e ↦ e ];
  }

  -- The entry's store is stopped and leaves the map and the cache.
  abbrev removed : x.Cache → World x
  removed cache = record (stop_at a w) {
    cache = cache;
    store_map = delete key (stop_at a w).store_map;
  }

  removed-IsRegistered : (cache : x.Cache) → IsRegistered (removed cache)
  unfolding lookup
  removed-IsRegistered cache = record {
    unique = HasUniqueKeys-delete key _ (rw ((stop_at_lem a w).0) h.registered.unique);
    stored = λ j b q. IsStoreOf-stop_at a w j b (
        h.registered.stored j b
          (grind (arith, (stop_at_lem a w).0, lookup-delete key j w.store_map)));
    listed = λ b cs q n.
        let (p, d) = stop_at-running a b w q n in
        grind (
          arith,
          (stop_at_lem a w).0,
          lookup-delete key cs.config.id w.store_map,
          h.registered.listed b cs p n,
          h.present key a,
          eq_iff key cs.config.id,
          eq_iff key key,
        );
  }

  removed-IsDeleting : (cache : x.Cache) → IsDeleting cm rest (removed cache)
  removed-IsDeleting cache = record {
    registered = removed-IsRegistered cache;
    unique = h.unique.1;
    present = λ j b q.
        grind (arith, (stop_at_lem a w).0, present_rest j b q, lookup-delete key j w.store_map);
    pending = λ b cs q n m. let (p, d) = stop_at-running a b w q n in pending_rest b cs p n m d;
  }

module _ {x : Xds} (cm : ConfigMap) where
  pub delete_found-IsDeleting :
      (key : String) (a : ℕ) (rest : Map ℕ) (w : World x)
      → IsDeleting cm ((key, a) ∷ rest) w
      → IsDeleting cm rest (delete_found cm key a (get_elem? w.heap a) w)
  delete_found-IsDeleting key a rest w h = go (get_elem? w.heap a) refl
    where
      go :
          (o : Option ConfigStore)
          → get_elem? w.heap a ≡ o
          → IsDeleting cm rest (delete_found cm key a o w)
      go none e = passed-IsDeleting cm key a rest w h (λ cs q. grind arith)
      go (some cs) e = elim (Bool-cases (belongs_to cm cs)) [
        | inl b ↦ rw b (removed-IsDeleting cm key a rest w h _)
        | inr b ↦ rw b (passed-IsDeleting cm key a rest w h (λ other q. grind arith))
      ]

  pub delete_entries-IsDeleting :
      (rest : Map ℕ) (w : World x)
      → IsDeleting cm rest w
      → IsDeleting cm [] (delete_entries cm rest w)
  unfolding delete_entries
  delete_entries-IsDeleting [] w h = h
  delete_entries-IsDeleting ((key, a) ∷ rest) w h =
      delete_entries-IsDeleting rest _ (delete_found-IsDeleting key a rest w h)

  pub started_deletion : (w : World x) → IsRegistered w → IsDeleting cm w.store_map w
  started_deletion w h = record {
    registered = h;
    unique = h.unique;
    present = λ key a q. q;
    pending = λ a cs q n m. h.listed a cs q n;
  }

  -- `DeleteConfigMap` keeps the stores registered: each key of `StoreMap` leads to a store of its
  -- node and each running store is in the map, if that was so before.
  pub delete_config_map-IsRegistered :
      (w : World x) → IsRegistered w → IsRegistered (delete_config_map cm w)
  unfolding delete_config_map
  delete_config_map-IsRegistered w h =
      (delete_entries-IsDeleting w.store_map w (started_deletion w h)).registered

  -- After `DeleteConfigMap`, from registered stores, no store runs that belongs to the ConfigMap.
  pub delete_config_map_stops :
      (w : World x)
      → IsRegistered w
      → (a : ℕ) (cs : ConfigStore) → get_elem? (delete_config_map cm w).heap a ≡ some cs
      → cs.is_stoped ≡ false
      → belongs_to cm cs ≡ false
  unfolding delete_config_map lookup
  delete_config_map_stops w h a cs q n =
      let d = delete_entries-IsDeleting w.store_map w (started_deletion w h) in
      grind (arith, d.pending a cs q n)
