-- ===== src/ConfigStore/Create.antt =====
-- `New` and `getConfigEndpoints` of pkg/configstore/configStore.go.
use envoy_control_plane.Prelude.{
  Bool, false, none, List, [], ◌∷◌, Result, ok, err, wrapped, Outcome, returns, panics,
}
use envoy_control_plane.Prelude.Maps.{append_at}
use envoy_control_plane.Kube.{Listers}
use envoy_control_plane.Envoy.{Resource, cluster_load_assignment}
use envoy_control_plane.Config.{ConfigType, Settings}
use envoy_control_plane.Resources.{Codec, endpoint_class, yaml_to_resources}
use envoy_control_plane.Endpoints.Listing.{LbMap}
use envoy_control_plane.Publish.{Runtime}
use envoy_control_plane.Secrets.{Issuer}
use envoy_control_plane.ConfigStore.{ConfigStore, save_last_endpoints, load_new_secrets}

-- `log.Fatal` for a resource of another class ends the process.
unfoldable pub group_endpoints : List Resource → LbMap → Outcome LbMap
unfolding append_at
group_endpoints [] lb_endpoints = returns lb_endpoints
group_endpoints (cluster_load_assignment fixed ∷ rest) lb_endpoints =
    group_endpoints rest (append_at fixed.cluster_name fixed.endpoints lb_endpoints)
group_endpoints (_ ∷ rest) lb_endpoints = panics

abbrev pub group_parsed : Result (List Resource) → Outcome (Result LbMap)
group_parsed (err e) = returns (err e)
group_parsed (ok endpoints) = elim (group_endpoints endpoints []) [
  | returns m ↦ returns (ok m)
  | panics ↦ panics
]

unfoldable pub get_config_endpoints : Codec → ConfigType → Outcome (Result LbMap)
unfolding group_endpoints
get_config_endpoints k config = group_parsed (yaml_to_resources k config.endpoints endpoint_class)

-- The state before the endpoints and the secrets are loaded.
abbrev pub initial : ConfigType → LbMap → ConfigStore
initial config config_endpoints = record {
  version = "";
  config = config;
  config_endpoints = config_endpoints;
  last_endpoints = none;
  last_endpoints_array = none;
  secrets = [];
  is_stoped = false;
}

module _ (r : Runtime) (c : Settings) (l : Listers) (i : Issuer) (k : Codec) where
  -- The rest of `New`, with the endpoints of the configuration.
  abbrev pub new_with : ConfigType → LbMap → Result (ConfigStore × Bool)
  new_with config config_endpoints =
      elim (wrapped "error in LoadNewSecrets"
        (load_new_secrets i c (initial config config_endpoints))) [
          | ok cs ↦ ok (save_last_endpoints r c l cs)
          | err e ↦ err e
        ]

  -- An error of `getConfigEndpoints` is logged and leaves a nil map.
  unfoldable pub new : ConfigType → Outcome (Result (ConfigStore × Bool))
  new config = elim (get_config_endpoints k config) [
    | panics ↦ panics
    | returns (ok m) ↦ returns (new_with config m)
    | returns (err e) ↦ returns (new_with config [])
  ]
