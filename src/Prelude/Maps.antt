-- ===== src/Prelude/Maps.antt =====
-- Go's `map[string]V` as an association list. The order of the entries stands for the order in
-- which a `range` meets them.
use mathlib.Core.Bool.{false}
use Prim.Native.String.{String}
use mathlib.Core.Path.{◌≡◌, refl, subst}
use mathlib.Core.Logic.{inl, inr}
use mathlib.Core.Option.{Option, none, some}
use mathlib.Core.List.{List, [], ◌∷◌, ◌++◌}
use native.Mathlib.Omega.{arith}
use text.Mathlib.Text.{◌==◌}
use text.Mathlib.TextEquality.{eq_iff}
use envoy_control_plane.Prelude.Tests.{if◌then◌else◌, Bool-cases}

abbrev pub Map {ℓ} : Type ℓ → Type ℓ
Map V = List (String × V)

module _ {ℓ} {V : Type ℓ} where
  -- v, ok := m[k]
  unfoldable pub lookup : String → Map V → Option V
  lookup key [] = none
  lookup key ((k, v) ∷ m) = if k == key then some v else lookup key m

  -- m[k] = v
  unfoldable pub insert : String → V → Map V → Map V
  insert key new [] = (key, new) ∷ []
  insert key new ((k, v) ∷ m) = if k == key then (key, new) ∷ m else (k, v) ∷ insert key new m

  -- delete(m, k)
  unfoldable pub delete : String → Map V → Map V
  delete k [] = []
  delete k ((j, v) ∷ m) = let rest = delete k m in if j == k then rest else (j, v) ∷ rest

  -- m[k], with the zero value for a missing key
  abbrev pub or_zero : V → Option V → V
  or_zero z none = z
  or_zero z (some v) = v

  unfoldable pub get : V → String → Map V → V
  unfolding lookup
  get z k m = or_zero z (lookup k m)

  pub lookup-insert :
      (key j : String) (new : V) (m : Map V)
      → lookup j (insert key new m) ≡ (if key == j then some new else lookup j m)
  unfolding lookup insert
  lookup-insert key j new [] = refl
  lookup-insert key j new ((k, v) ∷ m) =
      ground (arith, lookup-insert key j new m, eq_iff key j, eq_iff k key, eq_iff k j)

  pub lookup-delete :
      (k j : String) (m : Map V) → lookup j (delete k m) ≡ (if k == j then none else lookup j m)
  unfolding lookup delete
  lookup-delete k j [] = ground arith
  lookup-delete k j ((i, v) ∷ m) =
      ground (arith, lookup-delete k j m, eq_iff i k, eq_iff i j, eq_iff k j)

-- m[k] = append(m[k], vs...)
unfoldable pub append_at {ℓ} : {V : Type ℓ} → String → List V → Map (List V) → Map (List V)
unfolding get insert
append_at k vs m = insert k (get [] k m ++ vs) m

pub get-append_at {ℓ} :
    {V : Type ℓ} (k j : String) (vs : List V) (m : Map (List V))
    → get [] j (append_at k vs m) ≡ (if k == j then get [] j m ++ vs else get [] j m)
unfolding append_at get
get-append_at k j vs m =
    ground (arith, lookup-insert k j (or_zero [] (lookup k m) ++ vs) m, eq_iff k j)

-- Every key of a map stands in one entry.
abbrev pub IsAbsent {ℓ} : {V : Type ℓ} → String → Map V → Type 0
IsAbsent k [] = Unit
IsAbsent k ((j, v) ∷ m) = ((k == j) ≡ false) × IsAbsent k m

abbrev pub HasUniqueKeys {ℓ} : {V : Type ℓ} → Map V → Type 0
HasUniqueKeys [] = Unit
HasUniqueKeys ((k, v) ∷ m) = IsAbsent k m × HasUniqueKeys m

module _ {ℓ} {V : Type ℓ} where
  pub IsAbsent-insert :
      (k j : String) (v : V) (m : Map V)
      → (k == j) ≡ false
      → IsAbsent k m
      → IsAbsent k (insert j v m)
  unfolding insert
  IsAbsent-insert k j v [] n h = (n, tt)
  IsAbsent-insert k j v ((i, w) ∷ m) n (p, h) = ground (arith, IsAbsent-insert k j v m n h)

  pub HasUniqueKeys-insert :
      (j : String) (v : V) (m : Map V) → HasUniqueKeys m → HasUniqueKeys (insert j v m)
  unfolding insert
  HasUniqueKeys-insert j v [] h = (tt, tt)
  HasUniqueKeys-insert j v ((i, w) ∷ m) (p, h) = elim (Bool-cases (i == j)) [
    | inl e ↦ rw e (subst (λ n. IsAbsent n m) ((eq_iff i j).0 e) p, h)
    | inr n ↦ rw n (IsAbsent-insert i j v m n p, HasUniqueKeys-insert j v m h)
  ]

  pub IsAbsent-delete : (k j : String) (m : Map V) → IsAbsent k m → IsAbsent k (delete j m)
  unfolding delete
  IsAbsent-delete k j [] h = tt
  IsAbsent-delete k j ((i, w) ∷ m) (p, h) = ground (arith, IsAbsent-delete k j m h)

  pub HasUniqueKeys-delete : (j : String) (m : Map V) → HasUniqueKeys m → HasUniqueKeys (delete j m)
  unfolding delete
  HasUniqueKeys-delete j [] h = tt
  HasUniqueKeys-delete j ((i, w) ∷ m) (p, h) =
      ground (arith, HasUniqueKeys-delete j m h, IsAbsent-delete i j m p)

  pub lookup-IsAbsent : (k : String) (m : Map V) → IsAbsent k m → lookup k m ≡ none
  unfolding lookup
  lookup-IsAbsent k [] h = refl
  lookup-IsAbsent k ((j, v) ∷ m) (n, h) =
      ground (arith, eq_iff k j, eq_iff j k, lookup-IsAbsent k m h)
