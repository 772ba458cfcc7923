-- ===== src/Api/Canary.antt =====
-- Which `Endpoints` object `GetEndpoint` resolves a service name to.
use envoy_control_plane.Prelude.{
  String, true, false, Option, none, some, List, [], ◌∷◌, ◌≡◌, ◌⊎◌, arith, eq_iff, ok, ◌==◌,
  Bool-cases, inl, inr, if◌then◌else◌,
}
use envoy_control_plane.Prelude.Maps.{lookup}
use envoy_control_plane.Prelude.Texts.{has_suffix}
use envoy_control_plane.Kube.{Endpoints, Listers}
use envoy_control_plane.Api.{
  canary_suffix, annotation_canary_enabled, is_true, canary_enabled, find_endpoint, get_endpoint,
}

-- An object may be used under a name: a name that ends in `-canary` asks for the annotation.
pub record Serves (name : String) (e : Endpoints) : Type 0 where
  pub named : e.name ≡ name
  pub enabled :
      (has_suffix name canary_suffix ≡ false)
      ⊎ (lookup annotation_canary_enabled e.annotations ≡ some "true")

-- The first object of a list that may be used under a name.
pub data FirstServing (name : String) : List Endpoints → Option Endpoints → Type 0 where
  nothing : FirstServing name [] none
  here : {e : Endpoints} {es : List Endpoints} → Serves name e → FirstServing name (e ∷ es) (some e)
  skip :
      {e : Endpoints} {es : List Endpoints} {r : Option Endpoints}
      → ¬ Serves name e
      → FirstServing name es r
      → FirstServing name (e ∷ es) r

is_true_iff : (o : Option String) → is_true o ≡ true → o ≡ some "true"
is_true_iff none h = cc
is_true_iff (some v) h = ground (arith, eq_iff v "true")

is_true-false : (o : Option String) → is_true o ≡ false → ¬ (o ≡ some "true")
is_true-false none h e = cc
is_true-false (some v) h e = ground (arith, eq_iff v "true")

disabled-Serves :
    (name : String) (e : Endpoints)
    → has_suffix name canary_suffix ≡ true
    → canary_enabled e ≡ false
    → ¬ Serves name e
unfolding canary_enabled
disabled-Serves name e s d v = elim v.enabled [ inl p ↦ cc (s, p) | inr p ↦ is_true-false _ d p ]

unnamed-Serves : (name : String) (e : Endpoints) → (e.name == name) ≡ false → ¬ Serves name e
unnamed-Serves name e d v = cc (d, (eq_iff e.name name).1 v.named)

module _ (name : String) (e : Endpoints) (es : List Endpoints) {r : Option Endpoints} where
  -- The test on the name, once the annotation is no obstacle.
  by_name :
      (has_suffix name canary_suffix ≡ false)
        ⊎ (lookup annotation_canary_enabled e.annotations ≡ some "true")
      → FirstServing name es r
      → FirstServing name (e ∷ es) (if e.name == name then some e else r)
  by_name enabled later = elim (Bool-cases (e.name == name)) [
    | inl n ↦ rw n (here (record { named = (eq_iff e.name name).0 n; enabled = enabled }))
    | inr n ↦ rw n (skip (unnamed-Serves name e n) later)
  ]

find_endpoint_first :
    (name : String) (es : List Endpoints) → FirstServing name es (find_endpoint name es)
unfolding find_endpoint
find_endpoint_first name [] = nothing
find_endpoint_first name (e ∷ es) = elim (Bool-cases (has_suffix name canary_suffix)) [
  | inl s ↦ elim (Bool-cases (canary_enabled e)) [
    | inl c ↦
        rw (s, c)
          (by_name name e es (inr (unfold canary_enabled in is_true_iff _ c))
            (find_endpoint_first name es))
    | inr c ↦ rw (s, c) (skip (disabled-Serves name e s c) (find_endpoint_first name es))
  ]
  | inr s ↦ rw s (by_name name e es (inl s) (find_endpoint_first name es))
]

-- `GetEndpoint` returns the first listed object that has the name and, for a name that ends in
-- `-canary`, the annotation `envoy-control-plane/canary.enabled` with value `true`; it returns
-- `nil` exactly when there is none, and never fails when the lister answers.
pub get_endpoint_first :
    (l : Listers) (name : String) (es : List Endpoints)
    → l.list_endpoints ≡ ok es
    → (r : Option Endpoints) × (get_endpoint l name ≡ ok r) × FirstServing name es r
unfolding get_endpoint
get_endpoint_first l name es h = (find_endpoint name es, rw h, find_endpoint_first name es)
