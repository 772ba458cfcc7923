-- ===== src/ConfigStore/Saving.antt =====
-- `saveLastEndpoints` and the operations that call it: what is saved, and when it is pushed.
use mathlib.Core.Path.{subst}
use envoy_control_plane.Prelude.{
  String, true, false, some-injective, Option, none, some, List, [], ◌∷◌, map, ok, err, ◌≡◌, ◌≢◌,
  ◌↔◌, ◌∙◌, refl, ap, Bool-cases, inl, inr, arith, eq_iff, Result,
}
use envoy_control_plane.Prelude.Sorting.{sort}
use envoy_control_plane.Kube.{Listers}
use envoy_control_plane.Config.{ConfigType, Settings}
use envoy_control_plane.Endpoints.Listing.{LbMap, get_locality_lb_endpoints}
use envoy_control_plane.Publish.{Runtime, Published, collect, collect_found}
use envoy_control_plane.Publish.Lines.{
  map_lines, to_resource, invalid_map, ranged, collect_found_lem,
}
use envoy_control_plane.ConfigStore.{
  ConfigStore, same_texts, deep_equal, commit, commit_found, save_last_endpoints,
}

pub same_texts_iff : (ss ts : List String) → (same_texts ss ts ≡ true) ↔ (ss ≡ ts)
unfolding same_texts
same_texts_iff [] [] = ground arith
same_texts_iff [] (t ∷ ts) = ground arith
same_texts_iff (s ∷ ss) [] = ground arith
same_texts_iff (s ∷ ss) (t ∷ ts) = ground (arith, same_texts_iff ss ts, eq_iff s t)

pub deep_equal_iff :
    (o : Option (List String)) (ts : List String) → (deep_equal o ts ≡ true) ↔ (o ≡ some ts)
unfolding deep_equal
deep_equal_iff none ts = ground arith
deep_equal_iff (some ss) ts = ground (arith, same_texts_iff ss ts)

-- What is published describes one map, without an invalid address: its resources, and its lines
-- in order.
pub record IsCollected (r : Runtime) (p : Published) : Type 0 where
  pub source : LbMap
  pub resources : p.publish_ep ≡ map to_resource source
  pub lines : p.publish_ep_array ≡ sort (map_lines source)
  pub valid : invalid_map r source ≡ false

-- The saved endpoints and the saved lines describe one map, or neither is there.
pub data IsSaved (r : Runtime) (cs : ConfigStore) : Type 0 where
  nothing : cs.last_endpoints ≡ none → cs.last_endpoints_array ≡ none → IsSaved r cs
  saved :
      (source : LbMap)
      → cs.last_endpoints ≡ some (map to_resource source)
      → cs.last_endpoints_array ≡ some (sort (map_lines source))
      → invalid_map r source ≡ false
      → IsSaved r cs

collect_found-IsCollected :
    (r : Runtime) (ce es : LbMap) (p : Published) → collect_found r ce es ≡ some p → IsCollected r p
collect_found-IsCollected r ce es p h = elim (Bool-cases (invalid_map r (ranged r ce es))) [
  | inl bad ↦ cc (collect_found_lem r ce es, bad)
  | inr good ↦
      subst (IsCollected r) (some-injective (rw (collect_found_lem, good) at h))
        (record { source = ranged r ce es; resources = refl; lines = refl; valid = good })
]

module _ (r : Runtime) (c : Settings) (l : Listers) where
  pub collect-IsCollected :
      (config : ConfigType) (ce : LbMap) (p : Published)
      → collect r c l config ce ≡ some p
      → IsCollected r p
  unfolding collect
  collect-IsCollected config ce p h = go (get_locality_lb_endpoints c l config) h
    where
      go :
          (found : Result LbMap)
          → elim found [ ok es ↦ collect_found r ce es | err e ↦ none ] ≡ some p
          → IsCollected r p
      go (ok es) h = collect_found-IsCollected r ce es p h
      go (err e) h = cc

pub commit-IsSaved :
    (r : Runtime) (p : Published) (cs : ConfigStore)
    → IsCollected r p
    → IsSaved r cs
    → IsSaved r (commit p cs).0
unfolding commit
commit-IsSaved r p cs k s =
    elim (Bool-cases (deep_equal cs.last_endpoints_array p.publish_ep_array)) [
      | inl e ↦ rw (e, commit) s
      | inr e ↦ rw (e, commit) (saved k.source (ap some k.resources) (ap some k.lines) k.valid)
    ]

-- The early returns change nothing.
pub commit_found-IsSaved :
    (r : Runtime) (o : Option Published) (cs : ConfigStore)
    → ((p : Published) → o ≡ some p → IsCollected r p)
    → IsSaved r cs
    → IsSaved r (commit_found o cs).0
commit_found-IsSaved r none cs k s = s
commit_found-IsSaved r (some p) cs k s = commit-IsSaved r p cs (k p refl) s

-- As values, the saved endpoints and the saved lines stay in step. In the source this is so only
-- while no append writes into the array of a slice that was published before, which it may do if
-- the configuration has endpoints of its own: the model copies them.
pub save_last_endpoints-IsSaved :
    (r : Runtime) (c : Settings) (l : Listers) (cs : ConfigStore)
    → IsSaved r cs
    → IsSaved r (save_last_endpoints r c l cs).0
unfolding save_last_endpoints
save_last_endpoints-IsSaved r c l cs s =
    commit_found-IsSaved r _ cs (collect-IsCollected r c l cs.config cs.config_endpoints) s

commit_lem :
    (p : Published) (cs : ConfigStore)
    → ((commit p cs).0.last_endpoints_array ≡ some p.publish_ep_array)
      × (((commit p cs).1 ≡ true) ↔ (cs.last_endpoints_array ≢ some p.publish_ep_array))
unfolding commit
commit_lem p cs = ground (arith, deep_equal_iff cs.last_endpoints_array p.publish_ep_array)

-- When the endpoints can be collected and no address is invalid, the state after `saveLastEndpoints` holds
-- the lines of the current endpoints, and a push is started exactly when the lines before were
-- others or none.
pub save_last_endpoints-current :
    (r : Runtime) (c : Settings) (l : Listers) (cs : ConfigStore) (p : Published)
    → collect r c l cs.config cs.config_endpoints ≡ some p
    → ((save_last_endpoints r c l cs).0.last_endpoints_array ≡ some p.publish_ep_array)
      × (((save_last_endpoints r c l cs).1 ≡ true)
          ↔ (cs.last_endpoints_array ≢ some p.publish_ep_array))
unfolding save_last_endpoints
save_last_endpoints-current r c l cs p h = rw h (commit_lem p cs)

-- The configuration and its own endpoints stay as they are.
module _ (o : Option Published) (cs : ConfigStore) where
  config-commit_found : (commit_found o cs).0.config ≡ cs.config
  unfolding commit
  config-commit_found = ground arith

  is_stoped-commit_found : (commit_found o cs).0.is_stoped ≡ cs.is_stoped
  unfolding commit
  is_stoped-commit_found = ground arith

  config_endpoints-commit_found : (commit_found o cs).0.config_endpoints ≡ cs.config_endpoints
  unfolding commit
  config_endpoints-commit_found = ground arith

-- A configuration without endpoints of its own stays one, and `saveLastEndpoints` keeps its saved
-- endpoints and its saved lines in step: both describe one map of clusters, in which every address
-- is an IP address, or neither was ever saved.
pub save_last_endpoints_in_step :
    (r : Runtime) (c : Settings) (l : Listers) (cs : ConfigStore)
    → cs.config_endpoints ≡ []
    → IsSaved r cs
    → ((save_last_endpoints r c l cs).0.config_endpoints ≡ [])
      × IsSaved r (save_last_endpoints r c l cs).0
unfolding save_last_endpoints
save_last_endpoints_in_step r c l cs ownless s = (
  config_endpoints-commit_found _ cs ∙ ownless,
  unfold save_last_endpoints in save_last_endpoints-IsSaved r c l cs s,
)

commit_twice :
    (p : Published) (cs : ConfigStore) → commit p (commit p cs).0 ≡ ((commit p cs).0, false)
commit_twice p cs =
    unfold commit in rw ((deep_equal_iff _ _).1 (unfold commit in (commit_lem p cs).0))

commit_found_twice :
    (o : Option Published) (cs : ConfigStore)
    → commit_found o (commit_found o cs).0 ≡ ((commit_found o cs).0, false)
commit_found_twice none cs = refl
commit_found_twice (some p) cs = commit_twice p cs

-- A second `saveLastEndpoints` against the same caches changes nothing and starts no push.
pub save_last_endpoints_twice :
    (r : Runtime) (c : Settings) (l : Listers) (cs : ConfigStore)
    → save_last_endpoints r c l (save_last_endpoints r c l cs).0
      ≡ ((save_last_endpoints r c l cs).0, false)
unfolding save_last_endpoints
save_last_endpoints_twice r c l cs =
    let o : Option Published = collect r c l cs.config cs.config_endpoints in
    rw (config-commit_found o cs, config_endpoints-commit_found o cs) (commit_found_twice o cs)

pub config-save_last_endpoints :
    (r : Runtime) (c : Settings) (l : Listers) (cs : ConfigStore)
    → (save_last_endpoints r c l cs).0.config ≡ cs.config
unfolding save_last_endpoints
config-save_last_endpoints r c l cs = config-commit_found _ cs

pub is_stoped-save_last_endpoints :
    (r : Runtime) (c : Settings) (l : Listers) (cs : ConfigStore)
    → (save_last_endpoints r c l cs).0.is_stoped ≡ cs.is_stoped
unfolding save_last_endpoints
is_stoped-save_last_endpoints r c l cs = is_stoped-commit_found _ cs
