-- ===== src/World/Served.antt =====
-- The abstract view of the stores of the process: for each node the configuration of its running
-- store, in pkg/configstore and pkg/configmapsstore.
use envoy_control_plane.Prelude.{
  ◌++◌, ◌∷◌, [], some-injective, ◌≡◌, refl, ap, sym, ◌∙◌, ℕ, String, Bool, true, false, Option,
  none, some, length, get_elem?, get_elem?-set, get_elem?-append_one, get_elem?-lt, nat_beq, arith,
  inl, inr, ◌==◌, eq_iff, Bool-cases, if◌then◌else◌,
}
use envoy_control_plane.Prelude.Maps.{lookup, insert, lookup-insert}
use envoy_control_plane.Config.{ConfigType}
use envoy_control_plane.Xds.{Xds}
use envoy_control_plane.ConfigStore.{ConfigStore, stop}
use envoy_control_plane.World.{World, call_at, stop_at, stop_found, allocate}
use envoy_control_plane.World.Registered.{IsRegistered}
use envoy_control_plane.World.Stopping.{stop_at_lem}

abbrev pub running_config : Option ConfigStore → Option ConfigType
running_config none = none
running_config (some cs) = if cs.is_stoped then none else some cs.config

abbrev pub served_at : {x : Xds} → World x → Option ℕ → Option ConfigType
served_at w none = none
served_at w (some a) = running_config (get_elem? w.heap a)

unfoldable pub served : {x : Xds} → World x → String → Option ConfigType
unfolding lookup
served w key = served_at w (lookup key w.store_map)

module _ {x : Xds} where
  heap_stopped :
      (a b : ℕ) (w : World x) (cs : ConfigStore)
      → get_elem? w.heap a ≡ some cs
      → get_elem? (stop_at a w).heap b
        ≡ (if nat_beq a b then some (stop cs) else get_elem? w.heap b)
  unfolding stop_at call_at
  heap_stopped a b w cs h = rw (stop_at, call_at, h) (get_elem?-set w.heap a b (stop cs) cs h)

  -- The entries of two keys lead to one object exactly if the keys are the same.
  same_address :
      (id key : String) (a b : ℕ) (w : World x)
      → IsRegistered w
      → lookup id w.store_map ≡ some a
      → lookup key w.store_map ≡ some b
      → nat_beq a b ≡ (id == key)
  same_address id key a b w h p q =
      let (cs, r, s) = h.stored id a p in
      let (cs', r', s') = h.stored key b q in
      elim (Bool-cases (id == key)) [
        | inl e ↦
            let ab =
              some-injective (sym p ∙ ap (λ k. lookup k w.store_map) ((eq_iff id key).0 e) ∙ q) in
            rw e (grind (arith, ab))
        | inr e ↦ elim (Bool-cases (nat_beq a b)) [
          | inr n ↦ n ∙ sym e
          | inl n ↦
              let ab : a ≡ b = grind (arith, n) in
              let cc' = some-injective (sym r ∙ ap (λ m. get_elem? w.heap m) ab ∙ r') in
              let same = sym s ∙ ap (λ c. c.config.id) cc' ∙ s' in
              ground (arith, e, (eq_iff id key).1 same)
        ]
      ]

  pub served_at-stop_at :
      (id key : String) (a : ℕ) (o : Option ℕ) (w : World x)
      → IsRegistered w
      → lookup id w.store_map ≡ some a
      → lookup key w.store_map ≡ o
      → served_at (stop_at a w) o ≡ (if id == key then none else served_at w o)
  unfolding stop
  served_at-stop_at id key a none w h p q = ground arith
  served_at-stop_at id key a (some b) w h p q =
      let (cs, r, _) = h.stored id a p in
      let e = heap_stopped a b w cs r in
      rw (e, same_address id key a b w h p q) (stopped cs (id == key))
    where
      stopped :
          (cs : ConfigStore) (t : Bool)
          → running_config (if t then some (stop cs) else get_elem? w.heap b)
            ≡ (if t then none else running_config (get_elem? w.heap b))
      stopped cs true = refl
      stopped cs false = refl

  -- `Stop` of the store of a node.
  pub served-stop_found :
      (id key : String) (o : Option ℕ) (w : World x)
      → IsRegistered w
      → lookup id w.store_map ≡ o
      → served (stop_found o w) key ≡ (if id == key then none else served w key)
  unfolding served
  served-stop_found id key none w h p = elim (Bool-cases (id == key)) [
    | inl e ↦ rw (e, sym (ap (λ k. lookup k w.store_map) ((eq_iff id key).0 e)) ∙ p) refl
    | inr e ↦ rw e refl
  ]
  served-stop_found id key (some a) w h p =
      rw ((stop_at_lem a w).0) (served_at-stop_at id key a (lookup key w.store_map) w h p refl)

  heap_added :
      (cs : ConfigStore) (b : ℕ) (w : World x) (old : ConfigStore)
      → get_elem? w.heap b ≡ some old
      → get_elem? (w.heap ++ cs ∷ []) b ≡ some old
  heap_added cs b w old h =
      grind (arith, get_elem?-append_one w.heap cs b, get_elem?-lt w.heap b old h)

  served_at-added :
      (key : String) (o : Option ℕ) (cs : ConfigStore) (pushes : Bool) (w : World x)
      → IsRegistered w
      → lookup key w.store_map ≡ o
      → served_at (allocate cs pushes w) o ≡ served_at w o
  unfolding allocate
  served_at-added key none cs pushes w h p = refl
  served_at-added key (some b) cs pushes w h p =
      let (old, q, _) = h.stored key b p in ap running_config (heap_added cs b w old q ∙ sym q)

  new_object :
      (cs : ConfigStore) (pushes : Bool) (w : World x)
      → cs.is_stoped ≡ false
      → running_config (get_elem? (allocate cs pushes w).heap (length w.heap)) ≡ some cs.config
  unfolding allocate
  new_object cs pushes w runs =
      rw (get_elem?-append_one w.heap cs (length w.heap)) (grind (arith, runs))

  -- `StoreMap.Store` of a new object that runs.
  pub served-register :
      (id key : String) (cs : ConfigStore) (pushes : Bool) (w : World x)
      → IsRegistered w
      → cs.is_stoped ≡ false
      → served
          (record (allocate cs pushes w) { store_map = insert id (length w.heap) w.store_map })
          key
        ≡ (if id == key then some cs.config else served w key)
  unfolding served
  served-register id key cs pushes w h runs = elim (Bool-cases (id == key)) [
    | inl e ↦ rw (lookup-insert id key (length w.heap) w.store_map, e) (new_object cs pushes w runs)
    | inr e ↦
        rw (lookup-insert id key (length w.heap) w.store_map, e)
          (served_at-added key (lookup key w.store_map) cs pushes w h refl)
  ]
