-- ===== src/Publish/Order.antt =====
-- What `saveLastEndpoints` compares, and Go's order of iteration.
use mathlib.Core.List.{Perm}
use envoy_control_plane.Prelude.{none, ◌≡◌, refl, sym, ◌∙◌, ok, err, Result}
use envoy_control_plane.Kube.{Listers}
use envoy_control_plane.Config.{ConfigType, Settings}
use envoy_control_plane.Endpoints.Listing.{LbMap, get_locality_lb_endpoints}
use envoy_control_plane.Publish.{Runtime, collect_found, collect}
use envoy_control_plane.Publish.Lines.{array_of, invalid_map, array_of-collect_found}

-- A `range` meets every entry of the map exactly once.
abbrev pub IsOrder : (LbMap → LbMap) → Type 0
IsOrder range = (m : LbMap) → Perm (range m) m

collect_found-range :
    (r : Runtime) (range' : LbMap → LbMap) (ce es : LbMap)
    → IsOrder r.range
    → IsOrder range'
    → array_of (collect_found r ce es)
      ≡ array_of (collect_found (record r { range = range' }) ce es)
unfolding invalid_map
collect_found-range r range' ce es p q =
    array_of-collect_found r ce es p
    ∙ sym (array_of-collect_found (record r { range = range' }) ce es q)

-- Whatever the two orders in which Go ranges over the merged map, if each meets every entry once,
-- `saveLastEndpoints` returns early in both or in neither, and the sorted lines that it compares
-- with the last ones are equal.
pub array_of-collect :
    (r : Runtime) (range' : LbMap → LbMap) (c : Settings) (l : Listers) (config : ConfigType)
    (ce : LbMap)
    → IsOrder r.range
    → IsOrder range'
    → array_of (collect r c l config ce)
      ≡ array_of (collect (record r { range = range' }) c l config ce)
unfolding collect
array_of-collect r range' c l config ce p q = go (get_locality_lb_endpoints c l config)
  where
    go :
        (found : Result LbMap)
        → array_of (elim found [ ok es ↦ collect_found r ce es | err e ↦ none ])
          ≡ array_of (elim found [
            | ok es ↦ collect_found (record r { range = range' }) ce es
            | err e ↦ none
          ])
    go (ok es) = collect_found-range r range' ce es p q
    go (err e) = refl
