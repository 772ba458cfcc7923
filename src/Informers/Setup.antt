-- ===== src/Informers/Setup.antt =====
-- pkg/api/informers.go: how RunKubeInformers sets up the informers and runs them.
use envoy_control_plane.Prelude.{
  Outcome, panics, ℕ, Bool, true, false, Option, none, some, List, [], ◌∷◌, ◌++◌, Error,
}
use envoy_control_plane.Api.Client.{Watched, pods, nodes, config_maps, endpoints}

-- What RunKubeInformers does: it asks the factory for an informer and its lister, gives an informer
-- its handler of events or of watch errors, runs it in a goroutine, sleeps, waits for the cache, and
-- starts the goroutine that closes `stopCh` when the context is done. Times are in milliseconds.
pub data Action : Type 0 where
  request add_event_handler set_watch_error_handler run wait_for_cache : Watched → Action
  sleep : ℕ → Action
  close_when_done : Action

-- What client-go answers: the error of SetWatchErrorHandler, and whether the cache has synced when
-- WaitForCacheSync returns.
pub record Answers : Type 0 where
  pub set_watch_error_handler : Watched → Option Error
  pub has_synced : Watched → Bool

-- The actions up to an end, and whether log.Fatal ended the process.
abbrev pub SetupTrace : Type 0
SetupTrace = List Action × Bool

abbrev pub informers_sync_time : ℕ
informers_sync_time = 5000

abbrev pub all_kinds : List Watched
all_kinds = pods ∷ nodes ∷ config_maps ∷ endpoints ∷ []

abbrev pub accepted : Option Error → Bool
accepted none = true
accepted (some e) = false

-- An action, and then a test whose failure is fatal.
abbrev pub guarded : Action → Bool → SetupTrace → SetupTrace
guarded action true rest = (action ∷ rest.0, rest.1)
guarded action false rest = (action ∷ [], true)

-- The same for each of some informers.
unfoldable pub guarded_all :
    (Watched → Action) → (Watched → Bool) → List Watched → SetupTrace → SetupTrace
guarded_all f ok [] rest = rest
guarded_all f ok (kind ∷ kinds) rest = guarded (f kind) (ok kind) (guarded_all f ok kinds rest)

abbrev pub prepared : List Action
prepared =
    request pods
    ∷ request nodes
    ∷ request config_maps
    ∷ request endpoints
    ∷ add_event_handler pods
    ∷ add_event_handler config_maps
    ∷ add_event_handler endpoints
    ∷ []

-- The nodes come first, as the zones of endpoints are looked up among them.
abbrev pub runs : List Action
runs = run nodes ∷ sleep informers_sync_time ∷ run pods ∷ run config_maps ∷ run endpoints ∷ []

unfoldable pub run_kube_informers : Answers → SetupTrace
unfolding guarded_all
run_kube_informers a =
    let waited = guarded_all wait_for_cache a.has_synced all_kinds (close_when_done ∷ [], false) in
    let watched =
      guarded_all set_watch_error_handler (λ kind. accepted (a.set_watch_error_handler kind))
        all_kinds (runs ++ waited.0, waited.1) in
    (prepared ++ watched.0, watched.1)

-- The handler of watch errors: each is fatal.
abbrev pub watch_errors : Error → Outcome (Unit {0})
watch_errors e = panics
