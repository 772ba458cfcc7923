-- ===== src/Secrets.antt =====
-- pkg/utils/utils.go: the secrets that every node is given (`NewSecrets`) and the snapshot that
-- is pushed to it (`GetConfigSnapshot`); pkg/certs gives the certificates.
pub mod Trust
pub mod Mutual
use envoy_control_plane.Prelude.{
  ℕ, ◌*◌, String, Option, none, some, List, [], ◌∷◌, ◌++◌, map, Result, ok, wrapped, ◌>>=◌,
  if◌then◌else◌,
}
use envoy_control_plane.Prelude.Maps.{Map}
use envoy_control_plane.Envoy.{
  CertificateValidationContext, Secret, tls_certificate, validation_context, Resource, secret,
}
use envoy_control_plane.Config.{
  Yaml, ConfigType, Settings, get_clusters, get_routes, get_listeners, get_secrets,
}

-- What packages outside the repository, and the keys of the process, contribute: an issued
-- certificate with its key, in PEM; the root certificate; YAML to JSON (`ConvertYAMLtoJSON` and
-- `json.Marshal`); and `protojson.Unmarshal`, which first resets its target.
pub record Issuer : Type 0 where
  pub new_certificate : List String → (hours : ℕ) → Result (String × String)
  pub root_cert_bytes : String
  pub to_json : Yaml → Result String
  pub unmarshal_validation : String → Result CertificateValidationContext

-- certs.CertValidity, in hours.
abbrev pub cert_validity : ℕ
cert_validity = 7 * 24

-- `validationContext.GetTrustedCa() == nil`
abbrev pub with_trusted_ca : String → CertificateValidationContext → CertificateValidationContext
with_trusted_ca root v = elim v.trusted_ca [
  | none ↦ record v { trusted_ca = some root }
  | some _ ↦ v
]

-- The validation context of a node: its own, if it has one and validation is not switched off.
unfoldable pub new_validation_context :
    Issuer → Settings → Option Yaml → Result CertificateValidationContext
new_validation_context i c none = ok (record { trusted_ca = some i.root_cert_bytes; rest = "" })
new_validation_context i c (some validation) =
    if c.ssl_do_not_use_validation
    then ok (record { trusted_ca = some i.root_cert_bytes; rest = "" })
    else do
      json_obj ← wrapped "json.Marshal(yamlObjJSON)" (i.to_json validation)
      v ← wrapped "protojson.Unmarshal(jsonObj)" (i.unmarshal_validation json_obj)
      ok (with_trusted_ca i.root_cert_bytes v)

unfoldable pub new_secrets : Issuer → Settings → String → Option Yaml → Result (List Secret)
unfolding new_validation_context
new_secrets i c dns_name validation = do
  (chain, key) ← i.new_certificate (dns_name ∷ []) cert_validity
  v ← new_validation_context i c validation
  ok (
      record { name = c.ssl_name; secret_type = tls_certificate chain key }
      ∷ record { name = "validation"; secret_type = validation_context v }
      ∷ [])

-- resource.ClusterType and so on of go-control-plane, by their short names.
abbrev pub cluster_type : String
cluster_type = "type.googleapis.com/envoy.config.cluster.v3.Cluster"

abbrev pub route_type : String
route_type = "type.googleapis.com/envoy.config.route.v3.RouteConfiguration"

abbrev pub listener_type : String
listener_type = "type.googleapis.com/envoy.config.listener.v3.Listener"

abbrev pub secret_type : String
secret_type = "type.googleapis.com/envoy.extensions.transport_sockets.tls.v3.Secret"

abbrev pub endpoint_type : String
endpoint_type = "type.googleapis.com/envoy.config.endpoint.v3.ClusterLoadAssignment"

-- The argument of `cache.NewSnapshot` that `GetConfigSnapshot` builds.
unfoldable pub snapshot_resources : ConfigType → List Resource → List Secret → Map (List Resource)
snapshot_resources config endpoints common_secrets =
    (cluster_type, get_clusters config)
    ∷ (route_type, get_routes config)
    ∷ (listener_type, get_listeners config)
    ∷ (secret_type, get_secrets config ++ map secret common_secrets)
    ∷ (endpoint_type, endpoints)
    ∷ []
