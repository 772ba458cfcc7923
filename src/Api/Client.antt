-- ===== src/Api/Client.antt =====
-- pkg/api/client.go: the client of Kubernetes, and pkg/api/metrics.go: what client-go reports of its
-- requests.
pub mod Namespace
use envoy_control_plane.Prelude.{
  ◌≡◌, refl, ap, sym, ◌∙◌, ℕ, suc, String, Bool, true, false, List, [], ◌∷◌, ◌++◌, Option, none,
  some, Result, ok, err, Error, Outcome, returns, panics, wrapped, ◌==◌, if◌then◌else◌, Bool-cases,
  inl, inr, arith, attempt, attempt-eq-ok, returns-injective, ok-injective,
}
use envoy_control_plane.Config.{Settings}

-- The informers of a shared factory, by the objects that they watch.
pub data Watched : Type 0 where
  pods nodes config_maps endpoints : Watched

-- clientcmd, rest, kubernetes and informers of client-go, up to the calls of the factory: a factory
-- without an option watches every namespace, WithNamespace makes it watch one, or every one for "".
pub record ClientGo : Type 1 where
  pub RestConfig : Type 0
  pub Clientset : Type 0
  pub build_config_from_flags : (master_url kubeconfig_path : String) → Result RestConfig
  pub in_cluster_config : Result RestConfig
  pub new_for_config : RestConfig → Result Clientset

-- A shared informer factory: `none` in `namespace` is every namespace. `requested` are the
-- informers that it was asked for, and `started` those that its Start ran.
pub record Factory (Clientset : Type 0) : Type 0 where
  pub clientset : Clientset
  pub resync : ℕ
  pub namespace : Option String
  pub requested : List Watched
  pub started : List Watched

abbrev pub default_resync : ℕ
default_resync = 0

-- Start runs the informers that the factory was asked for, as far as it has not run them, and
-- WaitForCacheSync waits for these.
abbrev pub start_factory : {A : Type 0} → Factory A → Factory A
start_factory f = record f { started = f.requested }

module _ (g : ClientGo) where
  open g use {RestConfig, Clientset, build_config_from_flags, in_cluster_config, new_for_config}

  -- `stop_closed` is whether `stopCh` was closed.
  pub record Client : Type 0 where
    pub stop_closed : Bool
    pub clientset : Clientset
    pub restconfig : RestConfig
    pub factory : Factory Clientset

  -- NewSharedInformerFactoryWithOptions with WithNamespace
  abbrev pub new_factory : Clientset → ℕ → String → Factory Clientset
  new_factory clientset resync namespace = record {
    clientset = clientset;
    resync = resync;
    namespace = if namespace == "" then none else some namespace;
    requested = [];
    started = [];
  }

  unfoldable pub rest_config : Settings → Result RestConfig
  rest_config c =
      if c.kube_config_file == ""
      then in_cluster_config
      else build_config_from_flags "" c.kube_config_file

  -- The two branches of the test are the same call.
  unfoldable pub factory_of : Settings → Clientset → Factory Clientset
  factory_of c clientset =
      if c.watch_namespaced
      then new_factory clientset default_resync c.namespace
      else new_factory clientset default_resync c.namespace

  -- An error of NewForConfig is fatal.
  abbrev pub with_config : Settings → RestConfig → Result Clientset → Outcome (Result Client)
  with_config c restconfig (err e) = panics
  with_config c restconfig (ok clientset) = returns (
      ok (record {
        stop_closed = false;
        clientset = clientset;
        restconfig = restconfig;
        factory = factory_of c clientset;
      }))

  unfoldable pub new_client : Settings → Outcome (Result Client)
  unfolding rest_config factory_of
  new_client c =
      attempt (rest_config c) (λ restconfig. with_config c restconfig (new_for_config restconfig))

  unfoldable pub run_and_wait : Client → Client
  run_and_wait client = record client { factory = start_factory client.factory }

  abbrev pub kube_factory : Client → Factory Clientset
  kube_factory client = client.factory

  abbrev pub kube_client : Client → Clientset
  kube_client client = client.clientset

  abbrev pub init_with : Outcome (Result Client) → Outcome (Result Client)
  init_with panics = panics
  init_with (returns m) =
      attempt (wrapped "error creating newClient" m) (λ client. returns (ok (run_and_wait client)))

  unfoldable pub init : Settings → Outcome (Result Client)
  unfolding new_client run_and_wait
  init c = init_with (new_client c)

-- KubernetesAPIRequest by the code of the answer, and what KubernetesAPIRequestDuration observed, in
-- seconds.
pub record Requests : Type 0 where
  pub by_code : String → ℕ
  pub durations : List ℕ

unfoldable pub increment : (code method host : String) → Requests → Requests
increment code method host r = record r {
  by_code = λ other. if code == other then suc (r.by_code other) else r.by_code other;
}

unfoldable pub observe : (verb url : String) (seconds : ℕ) → Requests → Requests
observe verb url seconds r = record r { durations = r.durations ++ seconds ∷ [] }
