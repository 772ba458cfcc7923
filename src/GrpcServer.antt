-- ===== src/GrpcServer.antt =====
-- pkg/controlplane/controlPlane.go: the gRPC server that createGrpcServer makes, by its options, and the
-- services that Init registers. The mux of the services is grpc's.
use envoy_control_plane.Prelude.{
  ℕ, String, Bool, true, Option, none, some, List, [], ◌∷◌, Result, ok, Error, Outcome, returns,
  panics, chain,
}
use envoy_control_plane.Config.{Settings}
use envoy_control_plane.Certs.{X509, Issued, Root, later, app_name, cert_validity_max}
use envoy_control_plane.Certs.Issue.{get_loaded_root_cert, new_certificate}

-- Times are in seconds.
abbrev pub grpc_keepalive_time : ℕ
grpc_keepalive_time = 30

abbrev pub grpc_keepalive_timeout : ℕ
grpc_keepalive_timeout = 5

abbrev pub grpc_keepalive_min_time : ℕ
grpc_keepalive_min_time = 30

abbrev pub grpc_max_concurrent_streams : ℕ
grpc_max_concurrent_streams = 1000000

module _ (x : X509) where
  -- The TLS configuration (`ClientAuth` is RequireAndVerifyClientCert), the limit of streams and the
  -- keepalive parameters.
  pub record GrpcServer : Type 0 where
    pub certificate : x.Certificate
    pub private_key : x.Key
    pub require_and_verify_client_cert : Bool
    pub client_cas : List x.Certificate
    pub root_cas : List x.Certificate
    pub max_concurrent_streams : ℕ
    pub keepalive_time : ℕ
    pub keepalive_timeout : ℕ
    pub min_time : ℕ
    pub permit_without_stream : Bool

  abbrev pub server_with : Root x → Issued x → GrpcServer
  server_with root i = record {
    certificate = i.cert;
    private_key = i.key;
    require_and_verify_client_cert = true;
    client_cas = get_loaded_root_cert x root ∷ [];
    root_cas = get_loaded_root_cert x root ∷ [];
    max_concurrent_streams = grpc_max_concurrent_streams;
    keepalive_time = grpc_keepalive_time;
    keepalive_timeout = grpc_keepalive_timeout;
    min_time = grpc_keepalive_min_time;
    permit_without_stream = true;
  }

  unfoldable pub create_grpc_server : (e now : ℕ) → Root x → Outcome (Result GrpcServer)
  unfolding new_certificate
  create_grpc_server e now root =
      chain (new_certificate x e now root (app_name ∷ []) (later cert_validity_max))
        (λ i. returns (ok (server_with root i)))

-- The services of the server, in the order of their registration.
pub data Service : Type 0 where
  access_log endpoint_discovery cluster_discovery route_discovery : Service
  listener_discovery secret_discovery : Service

abbrev pub services : List Service
services =
    access_log ∷ endpoint_discovery ∷ cluster_discovery ∷ route_discovery ∷ listener_discovery
    ∷ secret_discovery ∷ []

-- `Start`: `listen` is net.Listen, and `serve` is how the Serve of the server ends. Each error is
-- fatal. After GracefulStop, once the context is done, Serve returns without an error.
unfoldable pub start :
    (listen : String → Option Error) (serve : Option Error) → Settings → Outcome (Unit {0})
start listen serve c = elim (listen c.grpc_address) [
  | some e ↦ panics
  | none ↦ elim serve [ some e ↦ panics | none ↦ returns tt ]
]
