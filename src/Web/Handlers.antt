-- ===== src/Web/Handlers.antt =====
-- pkg/web/web.go: the two servers, and the handlers for help, probes, status, zone, version and
-- certificates. The parameters of a request are those of `r.Form`, "" if they are not given.
use envoy_control_plane.Prelude.{
  ℕ, String, true, false, Option, none, some, List, [], ◌∷◌, Result, ok, err, Error, message,
  wrapped, Outcome, returns, panics, chain, ◌==◌, ◌||◌, if◌then◌else◌,
}
use envoy_control_plane.Prelude.Texts.{join_text}
use envoy_control_plane.Kube.{Pod, Node}
use envoy_control_plane.Config.{Settings, git_version}
use envoy_control_plane.Xds.{Xds}
use envoy_control_plane.Certs.{X509, Root, Duration, later, app_name, cert_validity_year}
use envoy_control_plane.Certs.Issue.{new_certificate}
use envoy_control_plane.Web.{Route, Dump, dump, get_routes, get_handler, get_zone_by_pod_name}

-- fmt.Sprintf(linkFormat, route.description, route.path, route.path)
abbrev link : Route → String
link r = join_text "<tr><td>" (
    join_text r.description (
      join_text "</td><td><a href='"
        (join_text r.path (join_text "'>" (join_text r.path "</a></td></tr>")))))

unfoldable pub links : List Route → String
links [] = "</table>"
links (r ∷ rs) =
    let rest = links rs in if r.description == "" then rest else join_text (link r) rest

unfoldable pub handler_help : String
unfolding links get_routes
handler_help = join_text "<table border='1' cellpadding='8'>" (links get_routes)

abbrev pub handler_ready : String
handler_ready = "ready"

abbrev pub handler_healthz : String
handler_healthz = "LIVE"

pub record StatusResponce (x : Xds) : Type 0 where
  pub node_id : String
  pub snapshot : Option x.Snapshot

-- A node without a snapshot is logged, and listed with none.
unfoldable pub status_results :
    {x : Xds} → String → (status_keys : List String) → x.Cache → List (StatusResponce x)
status_results id [] cache = []
status_results {x} id (node_id ∷ keys) cache =
    let rest = status_results id keys cache in
    if id == "" || id == node_id
    then record { node_id = node_id; snapshot = x.get_snapshot cache node_id } ∷ rest
    else rest

unfoldable pub handler_status :
    {x : Xds} → String → (status_keys : List String) → x.Cache → Dump (StatusResponce x)
unfolding status_results
handler_status id status_keys cache = dump (status_results id status_keys cache)

-- `form` is the error of `r.ParseForm()`, and the API server answers for pods and nodes.
unfoldable pub handler_zone :
    Settings
    → (form : Option Error) → (String → String → Result Pod)
    → (String → Result Node)
    → (namespace pod : String) → Result String
unfolding get_zone_by_pod_name
handler_zone c (some e) get_pod get_node namespace pod = err e
handler_zone c none get_pod get_node namespace pod =
    ok (get_zone_by_pod_name c (get_pod namespace pod) get_node)

pub record ApiVersion : Type 0 where
  pub version : String
  pub go_version : String
  pub goroutines : ℕ
  pub gomaxprocs : ℕ
  pub gogc : String
  pub godebug : String

-- `env` is os.Getenv; the other arguments are what package runtime answers.
unfoldable pub handler_version :
    (String → String) → String → (goroutines gomaxprocs : ℕ) → ApiVersion
handler_version env go_version goroutines gomaxprocs = record {
  version = git_version;
  go_version = go_version;
  goroutines = goroutines;
  gomaxprocs = gomaxprocs;
  gogc = env "GOGC";
  godebug = env "GODEBUG";
}

-- Status 400 with an error, or status 200 with the texts that are written one after the other.
pub data CertsReply (Bytes : Type 0) : Type 0 where
  bad_request : Error → CertsReply Bytes
  written : List Bytes → CertsReply Bytes

module _ (x : X509) (e now : ℕ) (root : Root x) where
  -- An error of NewCertificate is logged, and the two slices are nil.
  unfoldable pub issue_reply : String → Duration → Outcome (CertsReply x.Bytes)
  unfolding new_certificate
  issue_reply name duration = elim (new_certificate x e now root (name ∷ []) duration) [
    | panics ↦ panics
    | returns (err f) ↦ returns (written [])
    | returns (ok i) ↦ returns (written (i.cert_bytes ∷ i.key_bytes ∷ []))
  ]

  -- `parse_duration` is time.ParseDuration, in whole seconds.
  unfoldable pub handler_certs :
      (String → Result Duration) → (name duration : String) → Outcome (CertsReply x.Bytes)
  unfolding issue_reply
  handler_certs parse_duration name duration =
      if name == ""
      then returns (bad_request (message "no name"))
      else if duration == ""
      then returns (bad_request (message "no duration"))
      else elim (wrapped "error in parsing duration" (parse_duration duration)) [
        | err f ↦ returns (bad_request f)
        | ok parsed ↦ issue_reply name parsed
      ]

  -- An http.Server: its address, the routes of its mux, which stands behind `auth`, and its
  -- certificate with key.
  pub record Server : Type 0 where
    pub addr : String
    pub handler : List Route
    pub certificate : Option (x.Bytes × x.Bytes)

  unfoldable pub start : Settings → Server
  unfolding get_handler
  start c = record { addr = c.web_http_address; handler = get_handler true; certificate = none }

  -- `key_pair` is the error of tls.X509KeyPair.
  unfoldable pub start_tls : (x.Bytes → x.Bytes → Option Error) → Settings → Outcome (Result Server)
  unfolding new_certificate get_handler
  start_tls key_pair c =
      chain (new_certificate x e now root (app_name ∷ []) (later cert_validity_year)) (λ i.
        elim (key_pair i.cert_bytes i.key_bytes) [
          | some f ↦ returns (err f)
          | none ↦ returns (
              ok (record {
                addr = c.web_https_address;
                handler = get_handler false;
                certificate = some (i.cert_bytes, i.key_bytes);
              }))
        ])
