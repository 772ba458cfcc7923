-- ===== src/World/Changes.antt =====
-- Methods of an object (pkg/configstore/configStore.go) that keep its configuration and neither
-- start nor stop it, and the registered stores.
use envoy_control_plane.Prelude.{
  ℕ, String, false, Option, none, some, List, refl, if◌then◌else◌, get_elem?, set, get_elem?-set,
  some-injective, nat_beq, ◌≡◌, ap, sym, ◌∙◌, arith, inl, inr, Bool-cases,
}
use envoy_control_plane.Prelude.Maps.{lookup}
use envoy_control_plane.Config.{ConfigType}
use envoy_control_plane.Xds.{Xds}
use envoy_control_plane.ConfigStore.{ConfigStore}
use envoy_control_plane.World.{World, Task}
use envoy_control_plane.World.Registered.{IsRegistered, IsStoreOf}
use envoy_control_plane.World.Served.{served, served_at, running_config}

-- The state of an object after such a method.
pub record IsSameStore (cs cs' : ConfigStore) : Type 0 where
  pub config : cs'.config ≡ cs.config
  pub is_stoped : cs'.is_stoped ≡ cs.is_stoped

module _ {x : Xds} (w : World x) (a : ℕ) (cs cs' : ConfigStore)
    (held : get_elem? w.heap a ≡ some cs) (same : IsSameStore cs cs') (cache : x.Cache)
    (tasks : List Task) (h : IsRegistered w) where
  abbrev changed : World x
  changed = record w { heap = set w.heap a cs'; cache = cache; tasks = tasks }

  changed-stored :
      (key : String) (b : ℕ) → lookup key w.store_map ≡ some b → IsStoreOf changed key b
  changed-stored key b q =
      let (old, f, e) = h.stored key b q in
      elim (Bool-cases (nat_beq a b)) [
        | inl m ↦ (
          cs',
          grind (arith, get_elem?-set w.heap a b cs' cs held),
          (let p : cs ≡ old = some-injective (grind arith) in
              ap (λ z. z.id) same.config ∙ ap (λ z. z.config.id) p ∙ e),
        )
        | inr m ↦ (old, grind (arith, get_elem?-set w.heap a b cs' cs held), e)
      ]

  changed-listed :
      (b : ℕ) (now : ConfigStore)
      → get_elem? changed.heap b ≡ some now
      → now.is_stoped ≡ false
      → lookup now.config.id w.store_map ≡ some b
  changed-listed b now q n = elim (Bool-cases (nat_beq a b)) [
    | inl m ↦
        let p : cs' ≡ now = some-injective (grind (arith, get_elem?-set w.heap a b cs' cs held)) in
        let a_is_b : a ≡ b = ground arith in
        ap (λ z. lookup z w.store_map) (ap (λ z. z.config.id) (sym p) ∙ ap (λ z. z.id) same.config)
        ∙ h.listed a cs held (sym same.is_stoped ∙ ap (λ z. z.is_stoped) p ∙ n)
        ∙ ap some a_is_b
    | inr m ↦ h.listed b now (grind (arith, get_elem?-set w.heap a b cs' cs held)) n
  ]

  pub changed-IsRegistered : IsRegistered changed
  changed-IsRegistered = record {
    unique = h.unique;
    stored = changed-stored;
    listed = changed-listed;
  }

-- A property of the process that such a method keeps, whatever goroutines it starts and snapshots it
-- writes, and that does not depend on the goroutines.
pub record IsStable {x : Xds} (P : World x → Type 0) : Type 0 where
  pub changes :
      (w : World x) (a : ℕ) (cs cs' : ConfigStore)
      → get_elem? w.heap a ≡ some cs
      → IsSameStore cs cs'
      → (cache : x.Cache) (tasks : List Task) → P w
      → P (record w { heap = set w.heap a cs'; cache = cache; tasks = tasks })
  pub forgets : (w : World x) (tasks : List Task) → P w → P (record w { tasks = tasks })

pub IsRegistered-IsStable : {x : Xds} → IsStable {x = x} IsRegistered
IsRegistered-IsStable = record {
  changes =
      λ w a cs cs' held same cache tasks h. changed-IsRegistered w a cs cs' held same cache tasks h;
  forgets = λ w tasks h. record { unique = h.unique; stored = h.stored; listed = h.listed };
}

running_config-same :
    (cs cs' : ConfigStore)
    → IsSameStore cs cs'
    → running_config (some cs') ≡ running_config (some cs)
running_config-same cs cs' same =
    ap (λ b. if b then none else some cs'.config) same.is_stoped
    ∙ ap (λ d. if cs.is_stoped then none else some d) same.config

served_at-changed :
    {x : Xds} (w : World x) (a : ℕ) (cs cs' : ConfigStore)
    → get_elem? w.heap a ≡ some cs
    → IsSameStore cs cs'
    → (b : ℕ)
    → running_config (get_elem? (set w.heap a cs') b) ≡ running_config (get_elem? w.heap b)
served_at-changed w a cs cs' held same b = elim (Bool-cases (nat_beq a b)) [
  | inl m ↦
      let a_is_b : a ≡ b = ground arith in
      rw (get_elem?-set w.heap a b cs' cs held, m)
        (running_config-same cs cs' same
          ∙ ap running_config (sym held ∙ ap (λ n. get_elem? w.heap n) a_is_b))
  | inr m ↦ rw (get_elem?-set w.heap a b cs' cs held, m) refl
]

served_at_option :
    {x : Xds} (w w' : World x)
    → ((b : ℕ) → running_config (get_elem? w'.heap b) ≡ running_config (get_elem? w.heap b))
    → (o : Option ℕ) → served_at w' o ≡ served_at w o
served_at_option w w' same none = refl
served_at_option w w' same (some b) = same b

-- What runs for the nodes.
pub served-IsStable :
    {x : Xds} (g : String → Option ConfigType)
    → IsStable {x = x} (λ w. (key : String) → served w key ≡ g key)
unfolding served
served-IsStable g = record {
  changes = λ w a cs cs' held same cache tasks h key.
      served_at_option w (record w { heap = set w.heap a cs'; cache = cache; tasks = tasks })
        (served_at-changed w a cs cs' held same) (lookup key w.store_map)
      ∙ h key;
  forgets = λ w tasks h key.
      served_at_option w (record w { tasks = tasks }) (λ b. refl) (lookup key w.store_map) ∙ h key;
}
