-- ===== src/Prelude/Results.antt =====
-- The result of a fallible Go function: a value or a non-nil `error`. A call
-- that may panic has an `Outcome`.
use Prim.Native.String.{String}
use mathlib.Core.Path.{◌≡◌, refl, subst}
use mathlib.Core.List.{List, [], ◌∷◌, map, flat_map, map-append}
use mathlib.Core.Option.{Option, some}
use envoy_control_plane.Prelude.Lists.{All}

-- `message` is an error of the code or of a library, `wrap` is `errors.Wrap(err, text)`.
pub data Error : Type 0 where
  message : String → Error
  wrap : Error → String → Error

pub data Result {ℓ} (A : Type ℓ) : Type ℓ where
  ok : A → Result A
  err : Error → Result A

-- A panic ends the process: no caller recovers.
pub data Outcome {ℓ} (A : Type ℓ) : Type ℓ where
  returns : A → Outcome A
  panics : Outcome A

infixl 5 ◌>>=◌ ◌>>◌
abbrev pub ◌>>=◌ {ℓ κ} : {A : Type ℓ} {B : Type κ} → Result A → (A → Result B) → Result B
ok value >>= next = next value
err e >>= next = err e

abbrev pub ◌>>◌ {ℓ} : {B : Type ℓ} → Result (Unit {0}) → Result B → Result B
m >> k = m >>= λ _. k

-- `if err != nil { return nil, errors.Wrap(err, text) }`
abbrev pub wrapped {ℓ} : {A : Type ℓ} → String → Result A → Result A
wrapped text (ok a) = ok a
wrapped text (err e) = err (wrap e text)

-- `if err != nil { return nil, err }` in a function that may panic later.
abbrev pub attempt {ℓ κ} :
    {A : Type ℓ} {B : Type κ} → Result A → (A → Outcome (Result B)) → Outcome (Result B)
attempt (ok value) next = next value
attempt (err e) next = returns (err e)

pub attempt-eq-ok {ℓ κ} :
    {A : Type ℓ} {B : Type κ} (first : Result A) (next : A → Outcome (Result B)) {last : B}
    → attempt first next ≡ returns (ok last)
    → (value : A) × (first ≡ ok value) × (next value ≡ returns (ok last))
attempt-eq-ok (ok value) next h = (value, refl, h)
attempt-eq-ok (err e) next h = cc

-- The same after a call that may panic itself.
abbrev pub chain {ℓ κ} :
    {A : Type ℓ} {B : Type κ} → Outcome (Result A) → (A → Outcome (Result B)) → Outcome (Result B)
chain (returns m) next = attempt m next
chain panics next = panics

pub chain-eq-ok {ℓ κ} :
    {A : Type ℓ} {B : Type κ} (first : Outcome (Result A)) (next : A → Outcome (Result B))
    {last : B}
    → chain first next ≡ returns (ok last)
    → (value : A) × (first ≡ returns (ok value)) × (next value ≡ returns (ok last))
chain-eq-ok (returns (ok value)) next h = (value, refl, h)
chain-eq-ok (returns (err e)) next h = cc
chain-eq-ok panics next h = cc

-- Inversion of a successful bind.
pub >>=-eq-ok {ℓ κ} :
    {A : Type ℓ} {B : Type κ} (first : Result A) (next : A → Result B) {last : B}
    → (first >>= next) ≡ ok last
    → (value : A) × (first ≡ ok value) × (next value ≡ ok last)
>>=-eq-ok (ok value) next h = (value, refl, h)
>>=-eq-ok (err e) next h = cc

pub wrapped-eq-ok {ℓ} :
    {A : Type ℓ} (text : String) (m : Result A) {a : A} → wrapped text m ≡ ok a → m ≡ ok a
wrapped-eq-ok text (ok b) h = h
wrapped-eq-ok text (err e) h = cc

pub ok-injective {ℓ} : {A : Type ℓ} {a b : A} → Path (Result A) (ok a) (ok b) → a ≡ b
ok-injective h = cc

pub returns-injective {ℓ} :
    {A : Type ℓ} {a b : A} → Path (Outcome A) (returns a) (returns b) → a ≡ b
returns-injective h = cc

pub some-injective {ℓ} : {A : Type ℓ} {a b : A} → Path (Option A) (some a) (some b) → a ≡ b
some-injective h = cc

-- A loop over a slice that replaces each element and returns at the first error.
module _ {ℓ κ} {A : Type ℓ} {B : Type κ} where
  unfoldable pub traverse : (A → Result B) → List A → Result (List B)
  traverse f [] = ok []
  traverse f (a ∷ l) = do b ← f a; bs ← traverse f l; ok (b ∷ bs)

  -- What holds of each result of the body.
  pub All-traverse {μ} :
      (P : B → Type μ) (f : A → Result B) (l : List A) {m : List B}
      → ((a : A) (b : B) → f a ≡ ok b → P b)
      → traverse f l ≡ ok m
      → All P m
  unfolding traverse
  All-traverse P f [] step h = subst (All P) (ok-injective h) tt
  All-traverse P f (a ∷ l) step h =
      let (b, p, q) = >>=-eq-ok (f a) _ h in
      let (bs, r, s) = >>=-eq-ok (traverse f l) _ q in
      subst (All P) (ok-injective s) (step a b p, All-traverse P f l step r)

module _ {ℓ} {A : Type ℓ} (f : A → Result A) where
  -- A body that leaves its own results alone, repeated.
  pub traverse_twice :
      (l : List A) {m : List A}
      → ((a b : A) → f a ≡ ok b → f b ≡ ok b)
      → traverse f l ≡ ok m
      → traverse f m ≡ ok m
  unfolding traverse
  traverse_twice [] step h = rw (← ok-injective h)
  traverse_twice (a ∷ l) step h =
      let (b, p, q) = >>=-eq-ok (f a) _ h in
      let (bs, s, t) = >>=-eq-ok (traverse f l) _ q in
      rw (← ok-injective t, traverse, step a b p, traverse_twice l step s)

  pub traverse_id : (l : List A) → ((a : A) → f a ≡ ok a) → traverse f l ≡ ok l
  unfolding traverse
  traverse_id [] step = refl
  traverse_id (a ∷ l) step = rw (step a, traverse_id l step)

  pub traverse_id_on {μ} :
      (P : A → Type μ) (l : List A) → ((a : A) → P a → f a ≡ ok a) → All P l → traverse f l ≡ ok l
  unfolding traverse
  traverse_id_on P [] step h = refl
  traverse_id_on P (a ∷ l) step (p, h) = rw (step a p, traverse_id_on P l step h)

  -- What the body does to the parts of each element it does to the parts of all.
  pub traverse_parts {κ} :
      {C : Type κ} (w : A → List C) (g : C → C) (l : List A) {m : List A}
      → ((a b : A) → f a ≡ ok b → w b ≡ map g (w a))
      → traverse f l ≡ ok m
      → flat_map w m ≡ map g (flat_map w l)
  unfolding traverse flat_map
  traverse_parts w g [] step h = rw (← ok-injective h)
  traverse_parts w g (a ∷ l) step h =
      let (b, p, q) = >>=-eq-ok (f a) _ h in
      let (bs, s, t) = >>=-eq-ok (traverse f l) _ q in
      rw (← ok-injective t, map-append, step a b p, traverse_parts w g l step s)
