-- ===== src/Web/Dumps.antt =====
-- What the dumps of pkg/web/web.go show of registered stores.
use envoy_control_plane.Prelude.{
  ℕ, String, true, false, ◌||◌, Option, none, some, List, [], ◌∷◌, map, get_elem?, ◌==◌, eq_iff,
  eq_refl, ◌≡◌, ◌≢◌, refl, subst, ap, arith, Bool-cases, inl, inr,
}
use envoy_control_plane.Prelude.Maps.{Map, lookup, HasUniqueKeys, lookup-IsAbsent}
use envoy_control_plane.Xds.{Xds}
use envoy_control_plane.ConfigStore.{ConfigStore}
use envoy_control_plane.World.{World}
use envoy_control_plane.World.Registered.{IsRegistered, IsStoreOf}
use envoy_control_plane.Web.{
  range_results, dump, endpoints_results, handler_config_dump, handler_config_endpoints,
}

-- The store that `StoreMap` has for a node, or none.
abbrev pub held : Option ConfigStore → List ConfigStore
held none = []
held (some cs) = cs ∷ []

abbrev pub stores_of : {x : Xds} → Option ℕ → World x → List ConfigStore
stores_of none w = []
stores_of (some a) w = held (get_elem? w.heap a)

module _ {ℓ} {A : Type ℓ} (entry : ConfigStore → A) {x : Xds} (w : World x) (id : String)
    (some_id : id ≢ "") where
  range_results-lookup :
      (entries : Map ℕ)
      → HasUniqueKeys entries
      → ((key : String) (a : ℕ) → lookup key entries ≡ some a → IsStoreOf w key a)
      → range_results entry id entries w ≡ map entry (stores_of (lookup id entries) w)
  unfolding range_results lookup
  range_results-lookup [] u f = refl
  range_results-lookup ((key, a) ∷ entries) u f =
      let (cs, q, e) = f key a (rw (eq_refl key) refl) in
      let rest : range_results entry id entries w ≡ map entry (stores_of (lookup id entries) w) =
        range_results-lookup entries u.1 (λ k b h. f k b (rw (later k b h) h)) in
      elim (Bool-cases (key == id)) [
        | inl m ↦
            let shown : (id == "" || cs.config.id == id) ≡ true =
              ground (arith, eq_iff key id, eq_iff cs.config.id id) in
            rw (m, q, shown, rest, absent m) refl
        | inr m ↦
            let hidden : (id == "" || cs.config.id == id) ≡ false =
              ground (arith, eq_iff key id, eq_iff cs.config.id id, eq_iff id "") in
            rw (m, q, hidden) rest
      ]
    where
      absent : (key == id) ≡ true → lookup id entries ≡ none
      absent m =
          subst (λ z. lookup z entries ≡ none) ((eq_iff key id).0 m)
            (lookup-IsAbsent key entries u.0)

      later : (k : String) (b : ℕ) → lookup k entries ≡ some b → (key == k) ≡ false
      later k b h = grind (arith, eq_iff key k, lookup-IsAbsent key entries u.0)

-- For a node's id, the dump of the configurations and the dump of the endpoints show the one store
-- that `StoreMap` has for the node, and answer with an error if it has none, where the stores are
-- registered.
pub dumps-lookup :
    {x : Xds} (w : World x) (id : String)
    → IsRegistered w
    → id ≢ ""
    → (handler_config_dump id w
        ≡ dump (map (λ cs. cs.config) (stores_of (lookup id w.store_map) w)))
      × (handler_config_endpoints id w
          ≡ dump (map endpoints_results (stores_of (lookup id w.store_map) w)))
unfolding handler_config_dump handler_config_endpoints
dumps-lookup w id h n = (
  ap dump (range_results-lookup (λ cs. cs.config) w id n w.store_map h.unique h.stored),
  ap dump (range_results-lookup endpoints_results w id n w.store_map h.unique h.stored),
)
