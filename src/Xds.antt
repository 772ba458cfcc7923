-- ===== src/Xds.antt =====
-- The snapshot cache of github.com/envoyproxy/go-control-plane, which serves the nodes: its
-- operations are a parameter of the model, and what its documentation promises is `IsCache`.
use envoy_control_plane.Prelude.{
  String, Option, none, some, List, [], ◌∷◌, ◌==◌, if◌then◌else◌, Result, ok, Error, ◌≡◌, ◌≢◌,
}
use envoy_control_plane.Prelude.Maps.{Map, lookup}
use envoy_control_plane.Envoy.{Resource}

-- The resource of a name in a slice: a snapshot indexes its resources by name, and of two with one name
-- it keeps the later one.
abbrev pub by_name : (Resource → String) → String → List Resource → Option Resource
by_name name_of name [] = none
by_name name_of name (r ∷ rs) = elim (by_name name_of name rs) [
  | some later ↦ some later
  | none ↦ if name_of r == name then some r else none
]

-- `resource_name` is GetResourceName, and `get_resource` looks a name up in the map that GetResources
-- of a snapshot returns. `get_snapshot` gives `none` where the Go method returns a nil snapshot and an error.
pub record Xds : Type 1 where
  pub Snapshot : Type 0
  pub Cache : Type 0
  pub new_snapshot : String → Map (List Resource) → Result Snapshot
  pub get_version : Snapshot → String → String
  pub resource_name : Resource → String
  pub get_resource : Snapshot → (type_url name : String) → Option Resource
  pub set_snapshot : Cache → String → Snapshot → Cache × Option Error
  pub get_snapshot : Cache → String → Option Snapshot
  pub clear_snapshot : Cache → String → Cache

-- The snapshot has the resources of a slice, by their names.
abbrev pub Shows : (x : Xds) → x.Snapshot → (type_url : String) → List Resource → Type 0
Shows x snapshot type_url rs =
    (name : String) → x.get_resource snapshot type_url name ≡ by_name x.resource_name name rs

-- A snapshot holds the resources that it was made of, by their names, and the version; the cache stores a snapshot
-- under its node before it answers the open watches, so also when that fails.
pub record IsCache (x : Xds) : Type 0 where
  pub version :
      {v : String} {m : Map (List Resource)} {s : x.Snapshot} {rs : List Resource}
      → (t : String) → x.new_snapshot v m ≡ ok s
      → lookup t m ≡ some rs
      → (x.get_version s t ≡ v) × Shows x s t rs
  pub get_set_self :
      (c : x.Cache) (n : String) (s : x.Snapshot)
      → x.get_snapshot (x.set_snapshot c n s).0 n ≡ some s
  pub get_set_ne :
      (c : x.Cache) (n k : String) (s : x.Snapshot)
      → n ≢ k
      → x.get_snapshot (x.set_snapshot c n s).0 k ≡ x.get_snapshot c k
  pub get_clear_self : (c : x.Cache) (n : String) → x.get_snapshot (x.clear_snapshot c n) n ≡ none
  pub get_clear_ne :
      (c : x.Cache) (n k : String)
      → n ≢ k
      → x.get_snapshot (x.clear_snapshot c n) k ≡ x.get_snapshot c k
