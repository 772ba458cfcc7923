-- ===== src/Web.antt =====
-- pkg/web/web.go: the routes, the choice of those of a server, the check of credentials, and the
-- handlers that read the stores. Writing the answers, TLS and the time-outs are left out.
pub mod Access
pub mod Dumps
pub mod Handlers
pub mod Certificates
use envoy_control_plane.Prelude.{
  ℕ, String, Bool, true, false, not, ◌&&◌, ◌||◌, Option, none, some, List, [], ◌∷◌, get_elem?,
  Result, ok, err, ◌==◌, if◌then◌else◌,
}
use envoy_control_plane.Prelude.Texts.{has_prefix}
use envoy_control_plane.Prelude.Maps.{Map, get}
use envoy_control_plane.Kube.{Pod, Node}
use envoy_control_plane.Config.{ConfigType, Settings}
use envoy_control_plane.Xds.{Xds}
use envoy_control_plane.ConfigStore.{ConfigStore, get_last_endpoints}
use envoy_control_plane.World.{World}

-- The functions that the routes name.
pub data Handler : Type 0 where
  help ready healthz status config_dump config_endpoints zone version metrics certs : Handler
  pprof_index pprof_cmdline pprof_profile pprof_symbol pprof_trace : Handler

pub record Route : Type 0 where
  pub path : String
  pub description : String
  pub handler : Handler
  pub http_shema : Bool

abbrev route : String → String → Handler → Route
route path description handler = record {
  path = path;
  description = description;
  handler = handler;
  http_shema = false;
}

unfoldable pub get_routes : List Route
get_routes =
    route "/api/help" "Help" help
    ∷ route "/api/ready" "Route for application rediness probe" ready
    ∷ route "/api/healthz" "Route for application health probe" healthz
    ∷ route "/api/admin/status" "Status all nodes in SnapshotCache " status
    ∷ route "/api/admin/config_dump" "All dumps of configs that loaded to control-plane" config_dump
    ∷ route "/api/config_endpoints" "All endpoints in configs" config_endpoints
    ∷ route "/api/zone" "Get pod zone" zone
    ∷ route "/api/version" "Get version" version
    ∷ record (route "/api/metrics" "Get metrics" metrics) { http_shema = true }
    ∷ route "/api/admin/certs" "Generate cert" certs
    ∷ route "/debug/pprof/" "" pprof_index
    ∷ route "/debug/pprof/cmdline" "" pprof_cmdline
    ∷ route "/debug/pprof/profile" "" pprof_profile
    ∷ route "/debug/pprof/symbol" "" pprof_symbol
    ∷ route "/debug/pprof/trace" "" pprof_trace
    ∷ []

-- The loop of `GetHandler`: the routes that the mux is given. `route.httpShema == onlyHTTPShema`
-- is only tested where `onlyHTTPShema` holds.
unfoldable pub mux_routes : Bool → List Route → List Route
mux_routes only_http_shema [] = []
mux_routes only_http_shema (r ∷ rs) =
    let rest = mux_routes only_http_shema rs in
    if not only_http_shema || r.http_shema then r ∷ rest else rest

unfoldable pub get_handler : Bool → List Route
unfolding mux_routes get_routes
get_handler only_http_shema = mux_routes only_http_shema get_routes

-- What `auth` reads of a request: `r.URL.Path` and `r.BasicAuth()`.
pub record Request : Type 0 where
  pub path : String
  pub basic_auth : Option (String × String)

abbrev pub admin_prefix : String
admin_prefix = "/api/admin"

abbrev pub is_admin : Settings → Option (String × String) → Bool
is_admin c none = false
is_admin c (some (user, pass)) = user == c.web_admin_user && pass == c.web_admin_password

-- Status 401, or what the wrapped handler does.
pub data Reply {ℓ} (A : Type ℓ) : Type ℓ where
  unauthorised : Reply A
  served : A → Reply A

unfoldable pub auth {ℓ} : {A : Type ℓ} → Settings → (Request → A) → Request → Reply A
unfolding has_prefix
auth c mux r =
    if has_prefix r.path admin_prefix && not (is_admin c r.basic_auth)
    then unauthorised
    else served (mux r)

-- An answer with the results, or the error `no results`.
pub data Dump {ℓ} (A : Type ℓ) : Type ℓ where
  no_results : Dump A
  results : List A → Dump A

abbrev pub dump {ℓ} : {A : Type ℓ} → List A → Dump A
dump [] = no_results
dump (r ∷ rs) = results (r ∷ rs)

pub record EndpointsResults : Type 0 where
  pub name : String
  pub version : String
  pub last_saved : Option (List String)

module _ {ℓ} {A : Type ℓ} (entry : ConfigStore → A) where
  abbrev pub add_entry : String → Option ConfigStore → List A → List A
  add_entry id none rest = rest
  add_entry id (some cs) rest = if id == "" || cs.config.id == id then entry cs ∷ rest else rest

  -- The `Range` that the two dumps share.
  unfoldable pub range_results : {x : Xds} → String → Map ℕ → World x → List A
  range_results id [] w = []
  range_results id ((key, a) ∷ entries) w =
      add_entry id (get_elem? w.heap a) (range_results id entries w)

unfoldable pub handler_config_dump : {x : Xds} → String → World x → Dump ConfigType
unfolding range_results
handler_config_dump id w = dump (range_results (λ cs. cs.config) id w.store_map w)

unfoldable pub endpoints_results : ConfigStore → EndpointsResults
unfolding get_last_endpoints
endpoints_results cs = record {
  name = cs.config.id;
  version = cs.version;
  last_saved = get_last_endpoints cs;
}

unfoldable pub handler_config_endpoints : {x : Xds} → String → World x → Dump EndpointsResults
unfolding range_results endpoints_results
handler_config_endpoints id w = dump (range_results endpoints_results id w.store_map w)

-- `GetZoneByPodName` of pkg/api/informers.go: the API server answers for the pod and the nodes.
unfoldable pub get_zone_by_pod_name : Settings → Result Pod → (String → Result Node) → String
unfolding get
get_zone_by_pod_name c (err e) get_node = "unknown"
get_zone_by_pod_name c (ok pod) get_node = elim (get_node pod.node_name) [
  | err e ↦ "unknown"
  | ok node ↦
      let zone = get "" c.node_zone_label node.labels in if zone == "" then "unknown" else zone
]
