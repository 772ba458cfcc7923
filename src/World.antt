-- ===== src/World.antt =====
-- The state of the process: the `ConfigStore` objects, `StoreMap` (pkg/configstore), the snapshot
-- cache (pkg/controlplane) and the goroutines that were started and have not run yet.
pub mod Stopping
pub mod Registered
pub mod Served
pub mod Changes
use envoy_control_plane.Prelude.{
  ℕ, zero, suc, String, Bool, true, false, Option, none, some, List, [], ◌∷◌, ◌++◌, length,
  get_elem?, set,
}
use envoy_control_plane.Prelude.Maps.{Map, lookup}
use envoy_control_plane.Xds.{Xds}
use envoy_control_plane.ConfigStore.{ConfigStore, stop}

-- `go cs.Push` and `go cs.saveLastEndpoints` on the object at an address.
pub data Task : Type 0 where
  push_task save_task : ℕ → Task

-- `store_map` holds addresses in `heap`: an object that was replaced or deleted in the map may
-- still be used by a goroutine.
pub record World (x : Xds) : Type 0 where
  pub heap : List ConfigStore
  pub store_map : Map ℕ
  pub cache : x.Cache
  pub tasks : List Task

-- A goroutine that a call started or not.
abbrev pub started : Bool → Task → List Task
started false task = []
started true task = task ∷ []

module _ {x : Xds} where
  -- The object at an address after a call, with the push that the call started or not.
  abbrev pub put_at : ℕ → ConfigStore × Bool → World x → World x
  put_at a (cs, pushes) w = record w {
    heap = set w.heap a cs;
    tasks = w.tasks ++ started pushes (push_task a);
  }

  -- A call on the object at an address, if it is there.
  abbrev pub call_found :
      (ConfigStore → ConfigStore × Bool) → ℕ → Option ConfigStore → World x → World x
  call_found f a none w = w
  call_found f a (some cs) w = put_at a (f cs) w

  unfoldable pub call_at : (ConfigStore → ConfigStore × Bool) → ℕ → World x → World x
  call_at f a w = call_found f a (get_elem? w.heap a) w

  -- `cs.Stop()`
  unfoldable pub stop_at : ℕ → World x → World x
  unfolding call_at stop
  stop_at a w = call_at (λ cs. (stop cs, false)) a w

  -- The object that `StoreMap.Load` found or not.
  abbrev pub stop_found : Option ℕ → World x → World x
  stop_found none w = w
  stop_found (some a) w = stop_at a w

  -- A new object at the end of the heap, with the push that its creation started or not.
  unfoldable pub allocate : ConfigStore → Bool → World x → World x
  allocate cs pushes w = record w {
    heap = w.heap ++ cs ∷ [];
    tasks = w.tasks ++ started pushes (push_task (length w.heap));
  }
