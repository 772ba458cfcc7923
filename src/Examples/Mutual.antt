-- ===== src/Examples/Mutual.antt =====
-- The theorem on the trust among the nodes of a process (pkg/certs and pkg/utils), at two nodes.
use envoy_control_plane.Prelude.{
  ◌≡◌, refl, ℕ, ◌*◌, String, true, none, some, List, [], ◌∷◌, Result, ok, err, message, inl,
}
use envoy_control_plane.Envoy.{CertificateValidationContext, Secret}
use envoy_control_plane.Certs.{Issued, later}
use envoy_control_plane.Certs.Issue.{
  new_certificate, gen_server_cert, sign_server_cert, gen_cert, export_private_key, server_fields,
}
use envoy_control_plane.Certs.Issuing.{IsIssued, IsCertificateText}
use envoy_control_plane.Certs.Load.{root_of}
use envoy_control_plane.Secrets.{Issuer, cert_validity, new_secrets}
use envoy_control_plane.Secrets.Mutual.{texts, IsIssuerOf, Holds, new_secrets-mutual}
use envoy_control_plane.Examples as Node
use envoy_control_plane.Examples.{settings}
use envoy_control_plane.Examples.Issuing.{Blob, pem, x509, x509-IsX509, root, root-made}

abbrev text : Blob → String
text (pem block_type bytes) = block_type
text _ = ""

abbrev issued : String → ℕ → Result (Issued x509)
issued name hours =
    sign_server_cert x509 1 100 name [] root.cert root.key (later (hours * 3600)) "leaf"

abbrev certificate : List String → ℕ → Result (String × String)
certificate [] hours = err (message "index out of range")
certificate (name ∷ names) hours = texts x509 text (issued name hours)

abbrev issuer : Issuer
issuer = record Node.issuer {
  new_certificate = certificate;
  root_cert_bytes = text root.cert_bytes;
}

issuer-IsIssuerOf : IsIssuerOf x509 text 1 100 (root_of x509 root) issuer
unfolding new_certificate gen_server_cert
issuer-IsIssuerOf = record {
  issued = issued;
  issues = λ name hours. refl;
  certificate = λ name hours. refl;
  root_bytes = refl;
}

abbrev secrets_of : Result (List Secret) → List Secret
secrets_of (ok l) = l
secrets_of (err e) = []

unfoldable secrets : List Secret
unfolding new_secrets settings sign_server_cert gen_cert export_private_key
secrets = secrets_of (new_secrets issuer settings "front" none)

made : new_secrets issuer settings "front" none ≡ ok secrets
unfolding secrets new_secrets settings sign_server_cert gen_cert export_private_key
made = refl

new_secrets-mutual_example :
    (j j' : Issued x509) × (v v' : CertificateValidationContext) × Holds x509 text settings secrets
      j v
    × Holds x509 text settings secrets j' v'
    × IsIssued x509 (server_fields 100 "front" [] (later (cert_validity * 3600))) root.key j
    × (x509.signed_by j.cert (x509.public_key_of root.cert) ≡ true)
    × (v'.trusted_ca ≡ some (text root.cert_bytes))
    × IsCertificateText x509 root.cert_bytes root.cert
new_secrets-mutual_example =
    new_secrets-mutual x509 text x509-IsX509 0 100 root-made 1 100 1 100 issuer issuer settings
      "front" "front" none none issuer-IsIssuerOf issuer-IsIssuerOf (inl refl) made made
