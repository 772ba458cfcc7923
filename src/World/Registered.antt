-- ===== src/World/Registered.antt =====
-- The invariant of the stores of the process (pkg/configstore and pkg/configmapsstore): what
-- `StoreMap` holds, and which stores may run.
use envoy_control_plane.Prelude.{
  ℕ, String, Bool, false, Option, none, some, length, get_elem?, get_elem?-append_one, get_elem?-lt,
  nat_beq, ◌≡◌, ap, ◌∙◌, arith, inl, inr, ◌==◌, eq_iff, eq_refl, Bool-cases,
}
use envoy_control_plane.Prelude.Maps.{
  lookup, insert, lookup-insert, HasUniqueKeys, HasUniqueKeys-insert,
}
use envoy_control_plane.Xds.{Xds}
use envoy_control_plane.ConfigStore.{ConfigStore}
use envoy_control_plane.World.{World, stop_at, stop_found, allocate}
use envoy_control_plane.World.Stopping.{stop_at-running, stop_at-kept, stop_at_lem}

-- The object at an address, of a node.
abbrev pub IsStoreOf : {x : Xds} → World x → String → ℕ → Type 0
IsStoreOf w key a = (cs : ConfigStore) × (get_elem? w.heap a ≡ some cs) × (cs.config.id ≡ key)

-- Each key of `StoreMap` leads to a store of that node, and the map leads to every running store.
pub record IsRegistered {x : Xds} (w : World x) : Type 0 where
  pub unique : HasUniqueKeys w.store_map
  pub stored : (key : String) (a : ℕ) → lookup key w.store_map ≡ some a → IsStoreOf w key a
  pub listed :
      (a : ℕ) (cs : ConfigStore)
      → get_elem? w.heap a ≡ some cs
      → cs.is_stoped ≡ false
      → lookup cs.config.id w.store_map ≡ some a

module _ {x : Xds} where
  pub IsStoreOf-stop_at :
      (a : ℕ) (w : World x) (key : String) (b : ℕ)
      → IsStoreOf w key b
      → IsStoreOf (stop_at a w) key b
  IsStoreOf-stop_at a w key b (cs, h, q) =
      let (kept, k, p) = stop_at-kept a b w h in (kept, k, ap (λ c. c.id) p ∙ q)

  pub stop_at-IsRegistered : (a : ℕ) (w : World x) → IsRegistered w → IsRegistered (stop_at a w)
  stop_at-IsRegistered a w h = record {
    unique = rw ((stop_at_lem a w).0) h.unique;
    stored = λ key b q. IsStoreOf-stop_at a w key b (h.stored key b (rw (← (stop_at_lem a w).0) q));
    listed = λ b cs q n. rw ((stop_at_lem a w).0) (h.listed b cs (stop_at-running a b w q n).0 n);
  }

  pub stop_found-IsRegistered :
      (o : Option ℕ) (w : World x) → IsRegistered w → IsRegistered (stop_found o w)
  stop_found-IsRegistered none w h = h
  stop_found-IsRegistered (some a) w h = stop_at-IsRegistered a w h

  -- After the `Stop` of the store of a node no store of the node runs.
  pub stop_found-free :
      (key : String) (w : World x) (o : Option ℕ)
      → IsRegistered w
      → lookup key w.store_map ≡ o
      → (a : ℕ) (cs : ConfigStore) → get_elem? (stop_found o w).heap a ≡ some cs
      → cs.is_stoped ≡ false
      → (cs.config.id == key) ≡ false
  stop_found-free key w none h e a cs q n =
      grind (arith, eq_iff cs.config.id key, h.listed a cs q n)
  stop_found-free key w (some b) h e a cs q n =
      let (p, d) = stop_at-running b a w q n in
      grind (arith, eq_iff cs.config.id key, h.listed a cs p n)

  -- `StoreMap.Store` of a new object.
  module _ (cs : ConfigStore) (pushes : Bool) (w : World x) (h : IsRegistered w) where
    abbrev registered : World x
    registered = record (allocate cs pushes w) {
      store_map = insert cs.config.id (length w.heap) w.store_map;
    }

    register-stored :
        (key : String) (a : ℕ)
        → lookup key registered.store_map ≡ some a
        → IsStoreOf registered key a
    unfolding allocate
    register-stored key a q = elim (Bool-cases (cs.config.id == key)) [
      | inl e ↦ (
        cs,
        grind (
          arith,
          get_elem?-append_one w.heap cs a,
          lookup-insert cs.config.id key (length w.heap) w.store_map,
        ),
        (eq_iff cs.config.id key).0 e,
      )
      | inr e ↦
          let (old, p, q) =
            h.stored key a
              (grind (arith, lookup-insert cs.config.id key (length w.heap) w.store_map)) in
          (old, grind (arith, get_elem?-append_one w.heap cs a, get_elem?-lt w.heap a old p), q)
    ]

    register-listed :
        ((a : ℕ) (old : ConfigStore)
          → get_elem? w.heap a ≡ some old
          → old.is_stoped ≡ false
          → (old.config.id == cs.config.id) ≡ false)
        → (a : ℕ) (old : ConfigStore) → get_elem? registered.heap a ≡ some old
        → old.is_stoped ≡ false
        → lookup old.config.id registered.store_map ≡ some a
    unfolding allocate
    register-listed free a old q n = elim (Bool-cases (nat_beq (length w.heap) a)) [
      | inl e ↦ grind (
        arith,
        get_elem?-append_one w.heap cs a,
        lookup-insert cs.config.id old.config.id (length w.heap) w.store_map,
        eq_refl cs.config.id,
      )
      | inr e ↦
          let p : get_elem? w.heap a ≡ some old = grind (arith, get_elem?-append_one w.heap cs a) in
          grind (
            arith,
            lookup-insert cs.config.id old.config.id (length w.heap) w.store_map,
            h.listed a old p n,
            free a old p n,
            eq_iff cs.config.id old.config.id,
            eq_iff old.config.id cs.config.id,
          )
    ]

    pub register-IsRegistered :
        ((a : ℕ) (old : ConfigStore)
          → get_elem? w.heap a ≡ some old
          → old.is_stoped ≡ false
          → (old.config.id == cs.config.id) ≡ false)
        → IsRegistered registered
    unfolding allocate
    register-IsRegistered free = record {
      unique = HasUniqueKeys-insert cs.config.id (length w.heap) w.store_map h.unique;
      stored = register-stored;
      listed = register-listed free;
    }
