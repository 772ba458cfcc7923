-- ===== src/Examples/Kubernetes.antt =====
-- The theorems on the client of Kubernetes and on the start of the informers (pkg/api), at settings
-- without a file and an answer that refuses one handler.
use envoy_control_plane.Prelude.{
  ◌≡◌, refl, true, false, Option, none, some, ok, message, Error, returns, any, not, ◌&&◌,
}
use envoy_control_plane.Config.{Settings}
use envoy_control_plane.Api.Client.{
  Client, Watched, config_maps, new_factory, init, new_client, rest_config, factory_of,
  run_and_wait,
}
use envoy_control_plane.Api.Client.Namespace.{IsClientOf, init-IsClientOf}
use envoy_control_plane.Informers.Setup.{Answers, accepted, run_kube_informers}
use envoy_control_plane.Informers.Started.{
  IsPrefix, holds_of_each, everything, is_run, run_kube_informers_lem,
}
use envoy_control_plane.Examples.{settings}
use envoy_control_plane.Examples.Programs.{client_go}

unfoldable everywhere : Settings
unfolding settings
everywhere = record settings { watch_namespaced = false }

abbrev made : Client client_go
made = record {
  stop_closed = false;
  clientset = "cluster";
  restconfig = "cluster";
  factory = new_factory client_go "cluster" 0 "default";
}

inits : init client_go everywhere ≡ returns (ok made)
unfolding init new_client rest_config factory_of run_and_wait everywhere settings
inits = refl

init-IsClientOf_example : IsClientOf client_go everywhere made
init-IsClientOf_example = init-IsClientOf client_go everywhere inits

abbrev refused : Watched → Option Error
refused config_maps = some (message "informer has already started")
refused _ = none

abbrev refusing : Answers
refusing = record { set_watch_error_handler = refused; has_synced = λ kind. true }

run_kube_informers_lem_example :
    ((run_kube_informers refusing).1
      ≡ not (
          holds_of_each (λ kind. accepted (refusing.set_watch_error_handler kind))
          && holds_of_each refusing.has_synced))
    × IsPrefix (run_kube_informers refusing).0 everything
    × (any is_run (run_kube_informers refusing).0
        ≡ holds_of_each (λ kind. accepted (refusing.set_watch_error_handler kind)))
run_kube_informers_lem_example = run_kube_informers_lem refusing
