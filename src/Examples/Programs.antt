-- ===== src/Examples/Programs.antt =====
-- The theorems on the informers, on the process and on the command line client, at concrete objects,
-- flags and answers.
use envoy_control_plane.Prelude.{
  ◌≡◌, refl, String, Outcome, true, false, none, some, List, [], ◌∷◌, ◌++◌, ok, err, message,
  returns, panics, any,
}
use envoy_control_plane.Config.{check_config, load}
use envoy_control_plane.Metrics.{Counters}
use envoy_control_plane.Informers.{
  pod, deleted_final_state_unknown, Notification, pod_deleted, Callbacks, dispatch,
}
use envoy_control_plane.Informers.Typed.{is_typed, metric_of, reaction, IsAnswer, dispatch_lem}
use envoy_control_plane.Api.Client as Kubernetes
use envoy_control_plane.Api.Client.{ClientGo, new_client, rest_config, factory_of, run_and_wait}
use envoy_control_plane.Certs.Load
use envoy_control_plane.Certs.Issue.{gen_ca_root, gen_cert, export_private_key}
use envoy_control_plane.Examples.Issuing.{x509}
use envoy_control_plane.Process as Main
use envoy_control_plane.Process.{
  Process, Host, Reachable, here, step, started_leading, on_started_leading, start, run_settings,
  run_leader_election, configure,
}
use envoy_control_plane.Process.Lifecycle.{Phase, In, Reachable-In}
use envoy_control_plane.Cli.{
  Flags, Answer, Trace, Effect, get_ready, post_admin, print, sleep, finished, ends, is_ready,
  wait_for_api, drain, request_envoy_admin, End,
}
use envoy_control_plane.Cli as Client
use envoy_control_plane.Cli.Waiting.{polls, is_quit, wait_for_api_lem, drain_quits}
use envoy_control_plane.Examples as Node
use envoy_control_plane.Examples.{settings, runtime, listers, xds, codec, issuer, templates}
use envoy_control_plane.Examples.Stores.{loaded}
use envoy_control_plane.World.{World}
use envoy_control_plane.ConfigMaps.{Run, new_config_map, delete_config_map}
use envoy_control_plane.Events.{on_new_pod, on_delete_pod, on_new_endpoints}

-- The functions of the program, at a process with one store.
abbrev world_of : Run xds → Outcome (World xds)
world_of (returns (w, e)) = returns w
world_of panics = panics

abbrev program : Callbacks (World xds)
program = record {
  on_new_pod = some (λ p w. returns (on_new_pod runtime settings listers w));
  on_delete_pod = some (λ p w. returns (on_delete_pod runtime settings listers w));
  on_new_config =
      some (λ cm w. world_of (new_config_map runtime settings issuer codec templates listers cm w));
  on_delete_config = some (λ cm w. returns (delete_config_map cm w));
  on_new_endpoints = some (λ e w. returns (on_new_endpoints runtime settings listers w));
}

abbrev tombstone : Notification
tombstone = pod_deleted (deleted_final_state_unknown (pod Node.pod))

abbrev zeros : Counters
zeros = λ _. 0

dispatch_lem_example :
    IsAnswer
      (dispatch program tombstone zeros loaded)
      (is_typed tombstone)
      (metric_of tombstone)
      zeros
      (reaction program tombstone loaded)
dispatch_lem_example = dispatch_lem program tombstone zeros loaded

-- The last state of the pod that the tombstone holds is no pod.
tombstone_panics : dispatch program tombstone zeros loaded ≡ panics
unfolding dispatch
tombstone_panics = refl

abbrev pub client_go : ClientGo
client_go = record {
  RestConfig = String;
  Clientset = String;
  build_config_from_flags = λ master_url path. ok path;
  in_cluster_config = ok "cluster";
  new_for_config = λ restconfig. ok restconfig;
}

-- A host whose settings are those of the flags, as its file cannot be read.
unfoldable host : Host
unfolding settings
host = record {
  version = false;
  validate = "";
  flags = record settings { pod_name = "control-plane-0" };
  read_file = λ path. err (message "no file");
  unmarshal_settings = λ text c. ok c;
  unmarshal_config = λ text c. ok c;
  codec = Node.codec;
  parse_level = λ _. none;
  missing = λ _. none;
  client_go = client_go;
  x509 = x509;
  read_bytes = λ path. err (message "no file");
  entropy = 0;
  now = 100;
}

elected : Reachable host (on_started_leading (Main.main host))
unfolding Main.main Main.init configure load run_settings run_leader_election host check_config
    settings Kubernetes.init new_client rest_config factory_of run_and_wait Load.init gen_ca_root
    gen_cert export_private_key
elected = step here (started_leading refl refl)

Reachable-In_example : (phase : Phase) × In host phase (on_started_leading (Main.main host))
Reachable-In_example = Reachable-In host elected

abbrev flags : Flags
flags = record {
  action = "/api/zone";
  namespace = "shop";
  pod = "web-1";
  server = "envoy-control-plane";
  port = "18081";
  wait = true;
  envoy_log_level = "";
  drain_envoy = true;
  timeout = 10000;
  envoy_admin_port = "18000";
  tls_insecure = true;
  tls_ca = "";
  tls_client_crt = "";
  tls_client_key = "";
}

abbrev local : Client.Host
local = record {
  key_pair = λ _ _. none;
  read_file = λ _. none;
  new_request = λ _. none;
  encode = λ namespace pod. namespace;
}

abbrev good : Answer
good = ok (record { status_code = 200; body = ok "OK" })

abbrev refused : Answer
refused = err (message "connection refused")

abbrev done : List Answer → Trace
done _ = ends finished

wait_for_api_lem_example :
    ((wait_for_api flags local done (refused ∷ refused ∷ [] ++ good ∷ [])).effects
      ≡ polls 2 ++ get_ready ∷ [])
    × ((wait_for_api flags local done (refused ∷ refused ∷ [] ++ good ∷ [])).end ≡ finished)
wait_for_api_lem_example =
    wait_for_api_lem flags local done (refused ∷ refused ∷ []) good [] refl refl refl

quits : any is_quit (drain flags local (good ∷ good ∷ good ∷ [])).effects ≡ true
unfolding drain request_envoy_admin
quits = refl

drain_quits_example :
    (drained failed : String) × (more : List Effect) × ((drain flags local
        (good ∷ good ∷ good ∷ [])).effects
      ≡ post_admin "/drain_listeners?graceful"
        ∷ print drained
        ∷ post_admin "/healthcheck/fail"
        ∷ print failed
        ∷ sleep flags.timeout
        ∷ post_admin "/quitquitquit"
        ∷ more)
drain_quits_example = drain_quits flags local (good ∷ good ∷ good ∷ []) quits
