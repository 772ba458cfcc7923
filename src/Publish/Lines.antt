-- ===== src/Publish/Lines.antt =====
-- What `saveLastEndpoints` builds: the loops against a description of the merged map.
use mathlib.Core.List.{flat_map, append_assoc, append-nil, Perm, Permᴰ, Perm-prop, perm_append_comm}
use mathlib.Core.List.Perm
use mathlib.Core.Logic.{∥∥₁_elim}
use envoy_control_plane.Prelude.{
  String, Bool, false, not, ◌||◌, Option, none, some, List, [], ◌∷◌, ◌++◌, map, ◌≡◌, refl, ◌∙◌,
  arith, any, if◌then◌else◌,
}
use envoy_control_plane.Prelude.Sorting.{sort, sort-eq_of_perm}
use envoy_control_plane.Envoy.{LbEndpoint, LocalityLbEndpoints, Resource, cluster_load_assignment}
use envoy_control_plane.Endpoints.Listing.{LbMap}
use envoy_control_plane.Publish.{
  Runtime, Published, merge_endpoints, format_endpoint, publish_locality, publish_localities,
  publish_clusters, collect_found,
}

-- The line of every endpoint of a map, and the resources of its entries.
pub cluster_lines : String × List LocalityLbEndpoints → List String
unfolding flat_map
cluster_lines (name, ep) = flat_map (λ v. map (format_endpoint name v) v.lb_endpoints) ep

pub map_lines : LbMap → List String
unfolding flat_map
map_lines m = flat_map cluster_lines m

abbrev pub to_resource : String × List LocalityLbEndpoints → Resource
to_resource (name, ep) = cluster_load_assignment (record { cluster_name = name; endpoints = ep })

module _ (r : Runtime) where
  abbrev pub invalid_locality : LocalityLbEndpoints → Bool
  invalid_locality v = any (λ e. not (r.parse_ip e.address)) v.lb_endpoints

  -- Some address of a map is no IP address.
  unfoldable pub invalid_map : LbMap → Bool
  invalid_map m = any (λ e. any invalid_locality e.1) m

  -- What a published value becomes when lines and resources are added.
  abbrev pub extended : Published → List Resource → List String → Bool → Published
  extended p rs ls b = record {
    publish_ep = p.publish_ep ++ rs;
    publish_ep_array = p.publish_ep_array ++ ls;
    is_invalid_ip = p.is_invalid_ip || b;
  }

  extended-nil : (p : Published) → p ≡ extended p [] [] false
  extended-nil p = simp append-nil (ground arith)

  extended-extended :
      (p : Published) (rs ss : List Resource) (ls ms : List String) (b c : Bool)
      → extended (extended p rs ls b) ss ms c ≡ extended p (rs ++ ss) (ls ++ ms) (b || c)
  extended-extended p rs ss ls ms b c = simp append_assoc (ground arith)

  publish_locality-eq :
      (name : String) (v : LocalityLbEndpoints) (es : List LbEndpoint) (p : Published)
      → publish_locality r name v es p
        ≡ extended p [] (map (format_endpoint name v) es) (any (λ e. not (r.parse_ip e.address)) es)
  unfolding publish_locality
  publish_locality-eq name v [] p = extended-nil p
  publish_locality-eq name v (e ∷ es) p =
      rw (publish_locality-eq name v es) (simp (append_assoc, append-nil) (ground arith))

  publish_localities-eq :
      (name : String) (vs : List LocalityLbEndpoints) (p : Published)
      → publish_localities r name vs p
        ≡ extended p [] (cluster_lines (name, vs)) (any invalid_locality vs)
  unfolding publish_localities cluster_lines flat_map
  publish_localities-eq name [] p = extended-nil p
  publish_localities-eq name (v ∷ vs) p =
      rw (publish_localities-eq name vs, publish_locality-eq) (extended-extended p [] [] _ _ _ _)

  publish_clusters-eq :
      (m : LbMap) (p : Published)
      → publish_clusters r m p ≡ extended p (map to_resource m) (map_lines m) (invalid_map m)
  unfolding publish_clusters map_lines invalid_map flat_map
  publish_clusters-eq [] p = extended-nil p
  publish_clusters-eq ((name, ep) ∷ m) p =
      rw (publish_clusters-eq m, publish_localities-eq)
        (simp (append_assoc, append-nil) (ground arith))

  -- The merged map in the order in which it is ranged over.
  abbrev pub ranged : LbMap → LbMap → LbMap
  ranged config_endpoints endpoints = r.range (merge_endpoints config_endpoints endpoints)

  pub collect_found_lem :
      (config_endpoints endpoints : LbMap)
      → collect_found r config_endpoints endpoints ≡ (
          if invalid_map (ranged config_endpoints endpoints)
          then none
          else some (record {
            publish_ep = map to_resource (ranged config_endpoints endpoints);
            publish_ep_array = sort (map_lines (ranged config_endpoints endpoints));
            is_invalid_ip = false;
          }))
  unfolding collect_found
  collect_found_lem config_endpoints endpoints =
      rw (publish_clusters-eq (ranged config_endpoints endpoints)) (ground arith)

flat_map-permᴰ {ℓ κ} :
    {A : Type ℓ} {B : Type κ} (f : A → List B) {l m : List A}
    → Permᴰ l m
    → Perm (flat_map f l) (flat_map f m)
unfolding flat_map
flat_map-permᴰ f Permᴰ.nil = Perm.rfl
flat_map-permᴰ f (Permᴰ.cons {b} e p) = rw e (Perm.append_left (f b) (flat_map-permᴰ f p))
flat_map-permᴰ f (Permᴰ.swap {a'} {b'} {l} e d) =
    rw (e, d, ← append_assoc (f b') (f a') _, ← append_assoc (f a') (f b') _)
      (Perm.append_right (flat_map f l) (perm_append_comm (f b') (f a')))
flat_map-permᴰ f (Permᴰ.trans p q) = Perm.trans (flat_map-permᴰ f p) (flat_map-permᴰ f q)

any-permᴰ {ℓ} : {A : Type ℓ} (f : A → Bool) {l m : List A} → Permᴰ l m → any f l ≡ any f m
any-permᴰ f Permᴰ.nil = refl
any-permᴰ f (Permᴰ.cons e p) = rw (e, any-permᴰ f p)
any-permᴰ f (Permᴰ.swap {a'} {b'} e d) = rw (e, d) (ground arith)
any-permᴰ f (Permᴰ.trans p q) = any-permᴰ f p ∙ any-permᴰ f q

bool_set : IsSet Bool
bool_set = hlevel

map_lines-perm : {m n : LbMap} → Perm m n → Perm (map_lines m) (map_lines n)
unfolding map_lines
map_lines-perm p = ∥∥₁_elim p Perm-prop (flat_map-permᴰ cluster_lines)

invalid_map-perm : (r : Runtime) {m n : LbMap} → Perm m n → invalid_map r m ≡ invalid_map r n
unfolding invalid_map
invalid_map-perm r p = ∥∥₁_elim p (bool_set _ _) (any-permᴰ _)

abbrev pub array_of : Option Published → Option (List String)
array_of none = none
array_of (some p) = some p.publish_ep_array

pub array_of-collect_found :
    (r : Runtime) (ce es : LbMap)
    → ((m : LbMap) → Perm (r.range m) m)
    → array_of (collect_found r ce es) ≡ (
        if invalid_map r (merge_endpoints ce es)
        then none
        else some (sort (map_lines (merge_endpoints ce es))))
array_of-collect_found r ce es perm =
    rw
      (
        collect_found_lem,
        invalid_map-perm r (perm (merge_endpoints ce es)),
        sort-eq_of_perm (map_lines-perm (perm (merge_endpoints ce es))),
      )
      (ground arith)
