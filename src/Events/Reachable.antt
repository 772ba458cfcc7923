-- ===== src/Events/Reachable.antt =====
-- The process as a transition system: the events of pkg/api/informers.go, the jobs of
-- internal/internal.go and the goroutines that methods start, in any order. One step is a whole
-- handler, a whole round of a job or a whole goroutine.
use envoy_control_plane.Prelude.{
  ℕ, zero, suc, String, Bool, true, false, Option, none, some, List, [], ◌∷◌, get_elem?, ap, sym,
  ◌≡◌, ◌∙◌, subst, Error, Outcome, returns, panics, some-injective, returns-injective,
  if◌then◌else◌,
}
use envoy_control_plane.Prelude.Maps.{Map, lookup}
use envoy_control_plane.Kube.{ConfigMap, Listers}
use envoy_control_plane.Config.{Settings}
use envoy_control_plane.Resources.{Codec}
use envoy_control_plane.Loading.{Templates}
use envoy_control_plane.Publish.{Runtime}
use envoy_control_plane.Secrets.{Issuer}
use envoy_control_plane.Xds.{Xds}
use envoy_control_plane.ConfigStore.{ConfigStore, new_pod, delete_pod, new_endpoint}
use envoy_control_plane.World.{World, Task}
use envoy_control_plane.World.Registered.{IsRegistered}
use envoy_control_plane.World.Changes.{IsStable, IsRegistered-IsStable}
use envoy_control_plane.ConfigMaps.{Run, new_config_map, delete_config_map}
use envoy_control_plane.ConfigMaps.Registered.{new_config_map-IsRegistered}
use envoy_control_plane.ConfigMaps.Deletion.{delete_config_map-IsRegistered}
use envoy_control_plane.Events.{
  on_new_pod, on_delete_pod, on_new_endpoints, sync_stores, sync_all, run_task, rotate_stores,
  rotate_certificates, on_config_update, sync_found, rotate_found,
}
use envoy_control_plane.Events.Kept.{
  range_stores-keeps, new_pod-IsSameStore, IsKept, IsRunning, run_task-IsKept, rotate_found-IsKept,
  sync_found-IsRunning,
}

abbrev pub remove_at {ℓ} : {A : Type ℓ} → List A → ℕ → List A
remove_at [] i = []
remove_at (x ∷ xs) zero = xs
remove_at (x ∷ xs) (suc i) = x ∷ remove_at xs i

module _ (r : Runtime) (c : Settings) (i : Issuer) (k : Codec) (t : Templates) (x : Xds) where
  -- The steps that no ConfigMap takes part in.
  pub data Background : World x → World x → Type 0 where
    pod_found : (l : Listers) {w : World x} → Background w (on_new_pod r c l w)
    pod_deleted : (l : Listers) {w : World x} → Background w (on_delete_pod r c l w)
    endpoints_found : (l : Listers) {w : World x} → Background w (on_new_endpoints r c l w)
    stores_synced : (l : Listers) {w w' : World x} → sync_all r c l w ≡ returns w' → Background w w'
    certificates_rotated :
        (l : Listers) (uuids : ℕ → List String) {w w' : World x}
        → rotate_certificates r c l i uuids w ≡ some w'
        → Background w w'
    task_run :
        (l : Listers) (us : List String) (n : ℕ) {task : Task} {w w' : World x}
        → get_elem? w.tasks n ≡ some task
        → run_task r c l us task (record w { tasks = remove_at w.tasks n }) ≡ some w'
        → Background w w'

  pub data Step : World x → World x → Type 0 where
    new_config :
        (l : Listers) (cm : ConfigMap) {w w' : World x} {e : Option Error}
        → new_config_map r c i k t l cm w ≡ returns (w', e)
        → Step w w'
    update_config :
        (l : Listers) (old cur : ConfigMap) {w w' : World x} {e : Option Error}
        → on_config_update r c i k t l old cur w ≡ returns (w', e)
        → Step w w'
    delete_config : (cm : ConfigMap) {w : World x} → Step w (delete_config_map cm w)
    background : {w w' : World x} → Background w w' → Step w w'

  pub data Reachable (start : World x) : World x → Type 0 where
    here : Reachable start start
    step : {w w' : World x} → Reachable start w → Step w w' → Reachable start w'

  module _ {P : World x → Type 0} (stable : IsStable P) where
    sync_stores-IsRunning :
        (l : Listers) (entries : Map ℕ) (w : World x)
        → P w
        → IsRunning P (sync_stores r c l entries w)
    unfolding sync_stores
    sync_stores-IsRunning l [] w h = h
    sync_stores-IsRunning l ((key, a) ∷ rest) w h =
        go (sync_found r c l a (get_elem? w.heap a) w) (sync_found-IsRunning r c l stable a w h)
          (sync_stores-IsRunning l rest)
      where
        go :
            (o : Outcome (World x))
            → IsRunning P o
            → ((w' : World x) → P w' → IsRunning P (sync_stores r c l rest w'))
            → IsRunning P (elim o [ panics ↦ panics | returns w' ↦ sync_stores r c l rest w' ])
        go panics q f = tt
        go (returns w') q f = f w' q

    rotate_stores-IsKept :
        (l : Listers) (uuids : ℕ → List String) (entries : Map ℕ) (w : World x)
        → P w
        → IsKept P (rotate_stores r c l i uuids entries w)
    unfolding rotate_stores
    rotate_stores-IsKept l uuids [] w h = h
    rotate_stores-IsKept l uuids ((key, a) ∷ rest) w h =
        go (rotate_found r c l i (uuids a) a (get_elem? w.heap a) w)
          (rotate_found-IsKept r c l stable i (uuids a) a w h) (rotate_stores-IsKept l uuids rest)
      where
        go :
            (o : Option (World x))
            → IsKept P o
            → ((w' : World x) → P w' → IsKept P (rotate_stores r c l i uuids rest w'))
            → IsKept P (elim o [ none ↦ none | some w' ↦ rotate_stores r c l i uuids rest w' ])
        go none q f = tt
        go (some w') q f = f w' q

    pub Background-keeps : {w w' : World x} → Background w w' → P w → P w'
    unfolding on_new_pod on_delete_pod on_new_endpoints sync_all rotate_certificates delete_pod
        new_endpoint
    Background-keeps (pod_found l {w}) h =
        range_stores-keeps stable (new_pod r c l) (new_pod-IsSameStore r c l) w.store_map w h
    Background-keeps (pod_deleted l {w}) h =
        range_stores-keeps stable (delete_pod r c l) (new_pod-IsSameStore r c l) w.store_map w h
    Background-keeps (endpoints_found l {w}) h =
        range_stores-keeps stable (new_endpoint r c l) (new_pod-IsSameStore r c l) w.store_map w h
    Background-keeps (stores_synced l q) h = subst (IsRunning P) q (sync_stores-IsRunning l _ _ h)
    Background-keeps (certificates_rotated l uuids q) h =
        subst (IsKept P) q (rotate_stores-IsKept l uuids _ _ h)
    Background-keeps (task_run l us n {task} {w} m q) h =
        subst (IsKept P) q (run_task-IsKept r c l stable us task _ (stable.forgets w _ h))

  pub on_config_update-IsRegistered :
      (l : Listers) (old cur : ConfigMap) (w w' : World x) (e : Option Error)
      → on_config_update r c i k t l old cur w ≡ returns (w', e)
      → IsRegistered w
      → IsRegistered w'
  unfolding on_config_update
  on_config_update-IsRegistered l old cur w w' e q h = go _ q
    where
      go :
          (b : Bool)
          → Path
              (Run x)
              (if b then returns (w, none) else new_config_map r c i k t l cur w)
              (returns (w', e))
          → IsRegistered w'
      go true p = rw (← ap (λ z. z.0) (returns-injective p)) h
      go false p = new_config_map-IsRegistered r c i k t l cur w w' e h p

  pub Step-IsRegistered : {w w' : World x} → Step w w' → IsRegistered w → IsRegistered w'
  Step-IsRegistered (new_config l cm q) h = new_config_map-IsRegistered r c i k t l cm _ _ _ h q
  Step-IsRegistered (update_config l old cur q) h =
      on_config_update-IsRegistered l old cur _ _ _ q h
  Step-IsRegistered (delete_config cm) h = delete_config_map-IsRegistered cm _ h
  Step-IsRegistered (background s) h = Background-keeps IsRegistered-IsStable s h

  pub Reachable-IsRegistered :
      {start w : World x} → Reachable start w → IsRegistered start → IsRegistered w
  Reachable-IsRegistered here h = h
  Reachable-IsRegistered (step p s) h = Step-IsRegistered s (Reachable-IsRegistered p h)

  -- However events, jobs and goroutines follow on each other in a process that begins without a
  -- store, no node ever has two running stores: running objects with the same id are one object.
  pub no_two_stores :
      (cache : x.Cache) (w : World x) (a b : ℕ) (cs ds : ConfigStore)
      → Reachable (record { heap = []; store_map = []; cache = cache; tasks = [] }) w
      → get_elem? w.heap a ≡ some cs
      → get_elem? w.heap b ≡ some ds
      → cs.is_stoped ≡ false
      → ds.is_stoped ≡ false
      → cs.config.id ≡ ds.config.id
      → a ≡ b
  unfolding lookup
  no_two_stores cache w a b cs ds p q s m n e =
      let h : IsRegistered w =
        Reachable-IsRegistered p
          (record { unique = tt; stored = λ key a h. cc; listed = λ a cs h n. cc }) in
      some-injective
        (sym (h.listed a cs q m) ∙ ap (λ z. lookup z w.store_map) e ∙ h.listed b ds s n)
