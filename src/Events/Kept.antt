-- ===== src/Events/Kept.antt =====
-- The properties that methods of the objects keep, and the events and jobs of internal/internal.go.
use envoy_control_plane.Prelude.{
  ℕ, String, Bool, true, false, Option, none, some, List, [], ◌∷◌, get_elem?, refl, ◌≡◌, ◌∙◌, subst,
  Result, ok, err, Outcome, returns, panics, some-injective, if◌then◌else◌, Option-cases, inl, inr,
}
use envoy_control_plane.Prelude.Maps.{Map}
use envoy_control_plane.Kube.{Listers}
use envoy_control_plane.Config.{Settings}
use envoy_control_plane.Publish.{Runtime}
use envoy_control_plane.Secrets.{Issuer, endpoint_type}
use envoy_control_plane.Xds.{Xds}
use envoy_control_plane.ConfigStore.{
  ConfigStore, save_last_endpoints, new_pod, load_new_secrets, push, new_version,
}
use envoy_control_plane.ConfigStore.Saving.{
  config-save_last_endpoints, is_stoped-save_last_endpoints,
}
use envoy_control_plane.ConfigStore.Started.{load_new_secrets_lem}
use envoy_control_plane.ConfigStore.Resync.{
  sync, sync_check, check_saved, check_snapshot, with_push, forget_endpoints, is_mismatch,
}
use envoy_control_plane.World.{World, Task, push_task, save_task, call_at, call_found}
use envoy_control_plane.World.Changes.{IsSameStore, IsStable}
use envoy_control_plane.Events.{
  range_stores, synced, sync_found, pushed, push_found, run_task, rotated, rotate_found,
}

same_refl : (cs : ConfigStore) → IsSameStore cs cs
same_refl cs = record { config = refl; is_stoped = refl }

-- Both branches of a test.
branch {ℓ κ} :
    {A : Type ℓ} (P : A → Type κ) (b : Bool) {p q : A} → P p → P q → P (if b then p else q)
branch P true h k = h
branch P false h k = k

module _ {x : Xds} {P : World x → Type 0} (stable : IsStable P)
    (f : ConfigStore → ConfigStore × Bool)
    (same : (cs : ConfigStore) → IsSameStore cs (f cs).0) where
  pub call_at-keeps : (a : ℕ) (w : World x) → P w → P (call_at f a w)
  unfolding call_at
  call_at-keeps a w h = go (get_elem? w.heap a) refl
    where
      go : (o : Option ConfigStore) → get_elem? w.heap a ≡ o → P (call_found f a o w)
      go none e = h
      go (some cs) e = stable.changes w a cs (f cs).0 e (same cs) w.cache _ h

  pub range_stores-keeps : (entries : Map ℕ) (w : World x) → P w → P (range_stores f entries w)
  unfolding range_stores
  range_stores-keeps [] w h = h
  range_stores-keeps ((key, a) ∷ rest) w h = range_stores-keeps rest _ (call_at-keeps a w h)

module _ {x : Xds} (P : World x → Type 0) where
  abbrev pub IsKept : Option (World x) → Type 0
  IsKept none = Unit
  IsKept (some w) = P w

  abbrev pub IsRunning : Outcome (World x) → Type 0
  IsRunning panics = Unit
  IsRunning (returns w) = P w

module _ (r : Runtime) (c : Settings) (l : Listers) where
  pub save_last_endpoints-IsSameStore :
      (cs : ConfigStore) → IsSameStore cs (save_last_endpoints r c l cs).0
  save_last_endpoints-IsSameStore cs = record {
    config = config-save_last_endpoints r c l cs;
    is_stoped = is_stoped-save_last_endpoints r c l cs;
  }

  pub new_pod-IsSameStore : (cs : ConfigStore) → IsSameStore cs (new_pod r c l cs).0
  unfolding new_pod
  new_pod-IsSameStore cs =
      branch (λ (p : ConfigStore × Bool). IsSameStore cs p.0) cs.is_stoped (same_refl cs)
        (save_last_endpoints-IsSameStore cs)

  module _ (x : Xds) where
    -- What `Sync` does to a state, if it does not panic.
    abbrev IsSynced : ConfigStore → Outcome (ConfigStore × Bool × Bool) → Type 0
    IsSynced cs panics = Unit
    IsSynced cs (returns p) = IsSameStore cs p.0

    abbrev IsChecked : ConfigStore → Outcome (ConfigStore × Bool) → Type 0
    IsChecked cs panics = Unit
    IsChecked cs (returns (cs', _)) = IsSameStore cs cs'

    check_snapshot-IsChecked :
        (o : Option x.Snapshot) (cs : ConfigStore) → IsChecked cs (check_snapshot x o cs)
    unfolding forget_endpoints
    check_snapshot-IsChecked none cs = tt
    check_snapshot-IsChecked (some snap) cs =
        branch (IsChecked cs) (is_mismatch (x.get_version snap endpoint_type) cs)
          (record { config = refl; is_stoped = refl }) (same_refl cs)

    check_saved-IsChecked :
        {A : Type 0} (o : Option A) (cs : ConfigStore) (cache : x.Cache)
        → IsChecked cs (check_saved x o cs cache)
    check_saved-IsChecked none cs cache = same_refl cs
    check_saved-IsChecked (some _) cs cache = check_snapshot-IsChecked _ cs

    with_push-IsSynced :
        (cs now : ConfigStore) (pushes : Bool) (o : Outcome (ConfigStore × Bool))
        → IsSameStore cs now
        → IsChecked now o
        → IsSynced cs (with_push x pushes o)
    with_push-IsSynced cs now pushes panics p q = tt
    with_push-IsSynced cs now pushes (returns (cs', s)) p q = record {
      config = q.config ∙ p.config;
      is_stoped = q.is_stoped ∙ p.is_stoped;
    }

    sync-IsSynced : (cs : ConfigStore) (cache : x.Cache) → IsSynced cs (sync x r c l cs cache)
    unfolding sync sync_check
    sync-IsSynced cs cache = branch (IsSynced cs) cs.is_stoped (same_refl cs) (
        with_push-IsSynced cs (save_last_endpoints r c l cs).0 (save_last_endpoints r c l cs).1
          (sync_check x (save_last_endpoints r c l cs).0 cache) (save_last_endpoints-IsSameStore cs)
          (check_saved-IsChecked _ _ cache))

  -- A push.
  push-IsSameStore :
      (x : Xds) (us : List String) (cs cs' : ConfigStore) (cache cache' : x.Cache)
      → push x us cs cache ≡ some (cs', cache')
      → IsSameStore cs cs'
  unfolding push
  push-IsSameStore x us cs cs' cache cache' h = elim (Option-cases (new_version cs.version us)) [
    | inl e ↦ cc (e, h)
    | inr (v, e) ↦
        subst {A = ConfigStore × x.Cache} (λ t. IsSameStore cs t.0)
          (some-injective (rw (e, push) at h)) (record { config = refl; is_stoped = refl })
  ]

  module _ {x : Xds} {P : World x → Type 0} (stable : IsStable P) where
    pushed-IsKept :
        (a : ℕ) (cs now : ConfigStore) (us : List String) (w : World x)
        → get_elem? w.heap a ≡ some cs
        → IsSameStore cs now
        → P w
        → IsKept P (pushed r c l a (push x us now w.cache) w)
    pushed-IsKept a cs now us w e p h = go (push x us now w.cache) refl
      where
        go :
            (o : Option (ConfigStore × x.Cache))
            → push x us now w.cache ≡ o
            → IsKept P (pushed r c l a o w)
        go none q = tt
        go (some (cs', cache')) q =
            let s = push-IsSameStore x us now cs' w.cache cache' q in
            stable.changes w a cs cs' e
              (record { config = s.config ∙ p.config; is_stoped = s.is_stoped ∙ p.is_stoped })
              cache' w.tasks h

    pub run_task-IsKept :
        (us : List String) (t : Task) (w : World x) → P w → IsKept P (run_task r c l us t w)
    unfolding run_task
    run_task-IsKept us (push_task a) w h = go (get_elem? w.heap a) refl
      where
        go :
            (o : Option ConfigStore) → get_elem? w.heap a ≡ o → IsKept P (push_found r c l us a o w)
        go none e = h
        go (some cs) e = pushed-IsKept a cs cs us w e (same_refl cs) h
    run_task-IsKept us (save_task a) w h =
        call_at-keeps stable (save_last_endpoints r c l) save_last_endpoints-IsSameStore a w h

    pub rotate_found-IsKept :
        (i : Issuer) (us : List String) (a : ℕ) (w : World x)
        → P w
        → IsKept P (rotate_found r c l i us a (get_elem? w.heap a) w)
    rotate_found-IsKept i us a w h = go (get_elem? w.heap a) refl
      where
        made :
            (cs : ConfigStore) (res : Result ConfigStore)
            → get_elem? w.heap a ≡ some cs
            → load_new_secrets i c cs ≡ res
            → IsKept P (rotated r c l us a res w)
        made cs (err e) q p = h
        made cs (ok now) q p =
            let s = load_new_secrets_lem i c cs p in
            pushed-IsKept a cs now us w q (record { config = s.0; is_stoped = s.1 }) h

        go :
            (o : Option ConfigStore)
            → get_elem? w.heap a ≡ o
            → IsKept P (rotate_found r c l i us a o w)
        go none e = h
        go (some cs) e = made cs _ e refl

    pub sync_found-IsRunning :
        (a : ℕ) (w : World x) → P w → IsRunning P (sync_found r c l a (get_elem? w.heap a) w)
    sync_found-IsRunning a w h = go (get_elem? w.heap a) refl
      where
        left :
            (cs : ConfigStore) (o : Outcome (ConfigStore × Bool × Bool))
            → get_elem? w.heap a ≡ some cs
            → IsSynced x cs o
            → IsRunning P (synced r c l a o w)
        left cs panics e s = tt
        left cs (returns (cs', pushes, saves)) e s = stable.changes w a cs cs' e s w.cache _ h

        go :
            (o : Option ConfigStore) → get_elem? w.heap a ≡ o → IsRunning P (sync_found r c l a o w)
        go none e = h
        go (some cs) e = left cs _ e (sync-IsSynced x cs w.cache)
