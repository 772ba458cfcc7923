-- ===== src/Process.antt =====
-- cmd/main/main.go, internal/internal.go (Init) and the leader election of client-go: what the process
-- starts, and when it ends. Signals and the callbacks of the election come as steps.
pub mod Lifecycle
use envoy_control_plane.Prelude.{
  ℕ, String, Bool, true, false, Option, none, some, List, [], ◌∷◌, ◌++◌, Result, ok, err, Error,
  message, ◌>>=◌, ◌>>◌, ◌==◌, ◌≡◌, if◌then◌else◌, Outcome, returns, panics, attempt, chain,
}
use envoy_control_plane.Config.{ConfigType, Settings, load, check_config}
use envoy_control_plane.Resources.{Codec}
use envoy_control_plane.Loading.{validate_config}
use envoy_control_plane.Api.Client
use envoy_control_plane.Api.Client.{ClientGo}
use envoy_control_plane.Certs.{X509, app_name}
use envoy_control_plane.Certs.Load

-- What runs: the HTTP server for metrics, the election, the event handlers and jobs of
-- internal.Start, the gRPC server and the HTTPS server.
pub data Part : Type 0 where
  http_server leader_election event_handlers grpc_server https_server : Part

-- resourcelock.LeaseLock and leaderelection.LeaderElectionConfig; durations are in seconds.
pub record LeaseLock : Type 0 where
  pub name : String
  pub namespace : String
  pub identity : String

pub record Election : Type 0 where
  pub lock : LeaseLock
  pub release_on_cancel : Bool
  pub lease_duration : ℕ
  pub renew_deadline : ℕ
  pub retry_period : ℕ

-- The gauge LeaderElectionIsMaster, the parts in the order of their start, the election
-- that runs, whether the context is
-- cancelled, and the exit code after the end.
pub record Process : Type 0 where
  pub is_master : ℕ
  pub parts : List Part
  pub election : Option Election
  pub cancelled : Bool
  pub exit_code : Option ℕ

-- The flags, and the host on which the process runs: files, the decoders of yaml.v3 and protojson,
-- log.ParseLevel, os.Stat of a path that does not exist, client-go, and keys and certificates, with
-- what rand.Reader and time.Now() give to certs.Init.
pub record Host : Type 1 where
  pub version : Bool
  pub validate : String
  pub flags : Settings
  pub read_file : String → Result String
  pub unmarshal_settings : String → Settings → Result Settings
  pub unmarshal_config : String → ConfigType → Result ConfigType
  pub codec : Codec
  pub parse_level : String → Option Error
  pub missing : String → Option Error
  pub client_go : ClientGo
  pub x509 : X509
  pub read_bytes : String → Result x509.Bytes
  pub entropy : ℕ
  pub now : ℕ

abbrev pub failing : Option Error → Result (Unit {0})
failing none = ok tt
failing (some e) = err e

-- Init up to api.Init.
unfoldable pub configure : Host → Result Settings
unfolding load check_config
configure host = do
  c ← load host.read_file host.unmarshal_settings host.flags
  failing (host.parse_level c.log_level)
  check_config host.missing c
  ok c

-- An error that newClient itself ends the process with has no text.
abbrev pub not_fatal {ℓ} : {A : Type ℓ} → Outcome (Result A) → Result A
not_fatal panics = err (message "")
not_fatal (returns m) = m

-- `Init` of internal/internal.go; an error is what it ends the process with. A file of certs.Init
-- without a PEM block is a panic.
unfoldable pub init : Host → Outcome (Result Settings)
unfolding configure Client.init Load.init
init host = attempt (configure host) (λ c.
    attempt (not_fatal (Client.init host.client_go c)) (λ client.
      chain (Load.init host.x509 host.entropy host.now host.read_bytes c) (λ root. returns (ok c))))

abbrev pub exited : ℕ → Process → Process
exited code p = record p { exit_code = some code }

-- log.Fatal, with the exit handler.
abbrev pub fatal : Process → Process
fatal p = record p { cancelled = true; exit_code = some 1 }

unfoldable pub start : Process → Process
start p = record p { parts = p.parts ++ event_handlers ∷ grpc_server ∷ https_server ∷ [] }

-- GetLeaseLock, without the client of the clientset.
abbrev pub get_lease_lock : (pod_namespace pod_name : String) → LeaseLock
get_lease_lock pod_namespace pod_name = record {
  name = app_name;
  namespace = pod_namespace;
  identity = pod_name;
}

-- The configuration of the election.
abbrev pub election_of : Settings → Election
election_of c = record {
  lock = get_lease_lock c.namespace c.pod_name;
  release_on_cancel = true;
  lease_duration = 15;
  renew_deadline = 10;
  retry_period = 2;
}

unfoldable pub run_leader_election : Settings → Process → Process
run_leader_election c p =
    if c.namespace == ""
    then fatal p
    else if c.pod_name == ""
    then fatal p
    else record p { parts = p.parts ++ leader_election ∷ []; election = some (election_of c) }

unfoldable pub run_settings : Settings → Process → Process
unfolding start run_leader_election
run_settings c p = if c.leader_election then run_leader_election c p else start p

abbrev pub begun : Process
begun = record { is_master = 0; parts = []; election = none; cancelled = false; exit_code = none }

-- `main` up to its wait for the context.
unfoldable pub main : Host → Process
unfolding init run_settings validate_config
main host =
    if host.version
    then exited 0 begun
    else if host.validate == ""
    then elim (init host) [
      | panics ↦ exited 2 begun
      | returns (err e) ↦ fatal begun
      | returns (ok c) ↦ run_settings c (record begun { is_master = 0; parts = http_server ∷ [] })
    ]
    else elim (validate_config host.read_file host.unmarshal_config host.codec host.flags
        host.validate) [ panics ↦ exited 1 begun | returns _ ↦ exited 0 begun ]

-- OnStartedLeading
unfoldable pub on_started_leading : Process → Process
unfolding start
on_started_leading p = start (record p { is_master = 1 })

-- A process that has not ended: it is elected, once, it loses or releases the lease, it gets a first
-- signal, or a second one, and the grace period after a cancelled context ends.
pub data Step : Process → Process → Type 0 where
  started_leading :
      {p : Process}
      → p.exit_code ≡ none
      → p.parts ≡ http_server ∷ leader_election ∷ []
      → Step p (on_started_leading p)
  stopped_leading :
      {p : Process} (before after : List Part)
      → p.exit_code ≡ none
      → p.parts ≡ before ++ leader_election ∷ after
      → Step p (fatal p)
  first_signal : {p : Process} → p.exit_code ≡ none → Step p (record p { cancelled = true })
  second_signal : {p : Process} → p.exit_code ≡ none → p.cancelled ≡ true → Step p (exited 1 p)
  grace_period_over : {p : Process} → p.exit_code ≡ none → p.cancelled ≡ true → Step p (exited 0 p)

pub data Reachable (host : Host) : Process → Type 0 where
  here : Reachable host (main host)
  step : {p q : Process} → Reachable host p → Step p q → Reachable host q
