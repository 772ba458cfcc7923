-- ===== src/World/Stopping.antt =====
-- What a call on one object of the heap (pkg/configstore/configStore.go) leaves of the others.
use envoy_control_plane.Prelude.{
  ℕ, false, none, some, get_elem?, get_elem?-set, nat_beq, ◌≡◌, refl, arith, inl, inr,
  if◌then◌else◌, Bool-cases, Option-cases,
}
use envoy_control_plane.Xds.{Xds}
use envoy_control_plane.ConfigStore.{ConfigStore, stop}
use envoy_control_plane.World.{World, stop_at}

module _ {x : Xds} where
  pub stop_at-heap :
      (a b : ℕ) (w : World x) (old : ConfigStore)
      → get_elem? w.heap a ≡ some old
      → get_elem? (stop_at a w).heap b
        ≡ (if nat_beq a b then some (stop old) else get_elem? w.heap b)
  unfolding stop_at
  stop_at-heap a b w old e = rw e (get_elem?-set w.heap a b (stop old) old e)

  pub stop_at-absent : (a : ℕ) (w : World x) → get_elem? w.heap a ≡ none → stop_at a w ≡ w
  unfolding stop_at
  stop_at-absent a w e = rw e refl

  -- An object that still runs after a `Stop` is as it was, and is another one.
  pub stop_at-running :
      (a b : ℕ) (w : World x) {cs : ConfigStore}
      → get_elem? (stop_at a w).heap b ≡ some cs
      → cs.is_stoped ≡ false
      → (get_elem? w.heap b ≡ some cs) × (nat_beq a b ≡ false)
  unfolding stop
  stop_at-running a b w {cs} h n = elim (Option-cases (get_elem? w.heap a)) [
    | inl e ↦ grind (arith, stop_at-absent a w e)
    | inr (old, e) ↦ grind (arith, stop_at-heap a b w old e)
  ]

  -- A `Stop` keeps every object with its configuration.
  pub stop_at-kept :
      (a b : ℕ) (w : World x) {cs : ConfigStore}
      → get_elem? w.heap b ≡ some cs
      → (kept : ConfigStore) × (get_elem? (stop_at a w).heap b ≡ some kept)
        × (kept.config ≡ cs.config)
  unfolding stop
  stop_at-kept a b w {cs} h = elim (Option-cases (get_elem? w.heap a)) [
    | inl e ↦ rw (stop_at-absent a w e) (cs, h, refl)
    | inr (old, e) ↦ elim (Bool-cases (nat_beq a b)) [
      | inl q ↦ (stop old, rw (stop_at-heap a b w old e, q) refl, ground arith)
      | inr q ↦ (cs, rw (stop_at-heap a b w old e, q) h, refl)
    ]
  ]

  pub stop_at_lem :
      (a : ℕ) (w : World x)
      → ((stop_at a w).store_map ≡ w.store_map) × ((stop_at a w).cache ≡ w.cache)
  unfolding stop_at
  stop_at_lem a w = elim (Option-cases (get_elem? w.heap a)) [
    | inl e ↦ rw e (refl, refl)
    | inr (old, e) ↦ rw e (refl, refl)
  ]
