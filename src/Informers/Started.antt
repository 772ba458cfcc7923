-- ===== src/Informers/Started.antt =====
-- pkg/api/informers.go: the order in which RunKubeInformers works, and when it ends the process.
use envoy_control_plane.Prelude.{
  ◌≡◌, refl, ap, ◌∙◌, Bool, true, false, List, [], ◌∷◌, ◌++◌, map, all, any, ◌&&◌, ◌||◌, not, arith,
}
use envoy_control_plane.Api.Client.{Watched, pods, nodes, config_maps, endpoints}
use envoy_control_plane.Informers.Setup.{
  Action, request, add_event_handler, sleep, set_watch_error_handler, run, wait_for_cache,
  close_when_done, Answers, SetupTrace, all_kinds, accepted, guarded, guarded_all, prepared, runs,
  run_kube_informers,
}

abbrev pub IsPrefix : List Action → List Action → Type 0
IsPrefix actions whole = (rest : List Action) × (actions ++ rest ≡ whole)

IsPrefix-append :
    (before actions whole : List Action)
    → IsPrefix actions whole
    → IsPrefix (before ++ actions) (before ++ whole)
IsPrefix-append [] actions whole h = h
IsPrefix-append (a ∷ before) actions whole h =
    let (rest, e) = IsPrefix-append before actions whole h in (rest, ap (λ l. a ∷ l) e)

and_true : (b : Bool) → (b && true) ≡ b
and_true true = refl
and_true false = refl

abbrev pub is_run : Action → Bool
is_run (run kind) = true
is_run _ = false

abbrev finished : List Action
finished = close_when_done ∷ []

-- All that RunKubeInformers does when nothing fails, in its order.
abbrev pub everything : List Action
everything =
    request pods
    ∷ request nodes
    ∷ request config_maps
    ∷ request endpoints
    ∷ add_event_handler pods
    ∷ add_event_handler config_maps
    ∷ add_event_handler endpoints
    ∷ set_watch_error_handler pods
    ∷ set_watch_error_handler nodes
    ∷ set_watch_error_handler config_maps
    ∷ set_watch_error_handler endpoints
    ∷ run nodes
    ∷ sleep 5000
    ∷ run pods
    ∷ run config_maps
    ∷ run endpoints
    ∷ wait_for_cache pods
    ∷ wait_for_cache nodes
    ∷ wait_for_cache config_maps
    ∷ wait_for_cache endpoints
    ∷ close_when_done
    ∷ []

-- A test of every informer.
abbrev pub holds_of_each : (Watched → Bool) → Bool
holds_of_each test = test pods && (test nodes && (test config_maps && (test endpoints && true)))

module _ (f : Watched → Action) (ok : Watched → Bool) where
  guarded-fatal :
      (action : Action) (b : Bool) (rest : SetupTrace)
      → (guarded action b rest).1 ≡ (not b || rest.1)
  guarded-fatal action true rest = refl
  guarded-fatal action false rest = refl

  guarded_all-fatal :
      (kinds : List Watched) (rest : SetupTrace)
      → (guarded_all f ok kinds rest).1 ≡ (not (all ok kinds) || rest.1)
  unfolding guarded_all
  guarded_all-fatal [] rest = refl
  guarded_all-fatal (kind ∷ kinds) rest = ground (
    arith,
    guarded-fatal (f kind) (ok kind) (guarded_all f ok kinds rest),
    guarded_all-fatal kinds rest,
  )

  guarded-IsPrefix :
      (action : Action) (b : Bool) (rest : SetupTrace) (whole : List Action)
      → IsPrefix rest.0 whole
      → IsPrefix (guarded action b rest).0 (action ∷ whole)
  guarded-IsPrefix action true rest whole h = IsPrefix-append (action ∷ []) rest.0 whole h
  guarded-IsPrefix action false rest whole h = (whole, refl)

  guarded_all-IsPrefix :
      (kinds : List Watched) (rest : SetupTrace) (whole : List Action)
      → IsPrefix rest.0 whole
      → IsPrefix (guarded_all f ok kinds rest).0 (map f kinds ++ whole)
  unfolding guarded_all
  guarded_all-IsPrefix [] rest whole h = h
  guarded_all-IsPrefix (kind ∷ kinds) rest whole h =
      guarded-IsPrefix (f kind) (ok kind) _ _ (guarded_all-IsPrefix kinds rest whole h)

  guarded-runs :
      (action : Action) (b : Bool) (rest : SetupTrace)
      → is_run action ≡ false
      → any is_run (guarded action b rest).0 ≡ (b && any is_run rest.0)
  guarded-runs action true rest h = ground (arith, h)
  guarded-runs action false rest h = ground (arith, h)

  guarded_all-runs :
      (kinds : List Watched) (rest : SetupTrace)
      → ((kind : Watched) → is_run (f kind) ≡ false)
      → any is_run (guarded_all f ok kinds rest).0 ≡ (all ok kinds && any is_run rest.0)
  unfolding guarded_all
  guarded_all-runs [] rest h = refl
  guarded_all-runs (kind ∷ kinds) rest h = ground (
    arith,
    guarded-runs (f kind) (ok kind) (guarded_all f ok kinds rest) (h kind),
    guarded_all-runs kinds rest h,
  )

-- RunKubeInformers ends the process exactly if client-go refuses a handler of watch errors or a
-- cache has not synced when its wait ends. What it does is a part, from the beginning, of one
-- sequence, in which every informer has its handlers before it runs and the nodes run five seconds
-- before the others; and it runs informers exactly if all handlers of watch errors were accepted.
pub run_kube_informers_lem :
    (a : Answers)
    → ((run_kube_informers a).1
        ≡ not (
            holds_of_each (λ kind. accepted (a.set_watch_error_handler kind))
            && holds_of_each a.has_synced))
      × IsPrefix (run_kube_informers a).0 everything
      × (any is_run (run_kube_informers a).0
          ≡ holds_of_each (λ kind. accepted (a.set_watch_error_handler kind)))
unfolding run_kube_informers
run_kube_informers_lem a =
    let ok = λ (kind : Watched). accepted (a.set_watch_error_handler kind) in
    let waited = guarded_all wait_for_cache a.has_synced all_kinds (finished, false) in
    (
      ground (
        arith,
        guarded_all-fatal set_watch_error_handler ok all_kinds (runs ++ waited.0, waited.1),
        guarded_all-fatal wait_for_cache a.has_synced all_kinds (finished, false),
      ),
      IsPrefix-append prepared _ _ (
          guarded_all-IsPrefix set_watch_error_handler ok all_kinds (runs ++ waited.0, waited.1) _
            (IsPrefix-append runs waited.0 _ (
              guarded_all-IsPrefix wait_for_cache a.has_synced all_kinds (finished, false) finished
                ([], refl)))),
      guarded_all-runs set_watch_error_handler ok all_kinds (runs ++ waited.0, waited.1) (λ _. refl)
          ∙ and_true (all ok all_kinds),
    )
