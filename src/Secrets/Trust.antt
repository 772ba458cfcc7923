-- ===== src/Secrets/Trust.antt =====
-- The validation context that `NewSecrets` of pkg/utils/utils.go builds.
use envoy_control_plane.Prelude.{
  String, Option, none, some, List, [], ◌∷◌, ok, wrapped, >>=-eq-ok, ok-injective, ◌≡◌, refl, sym,
  Bool-cases, inl, inr,
}
use envoy_control_plane.Envoy.{
  CertificateValidationContext, Secret, tls_certificate, validation_context,
}
use envoy_control_plane.Config.{Yaml, Settings}
use envoy_control_plane.Secrets.{
  Issuer, cert_validity, with_trusted_ca, new_validation_context, new_secrets,
}

trusted_ca-with_trusted_ca :
    (root : String) (v : CertificateValidationContext)
    → (ca : String) × ((with_trusted_ca root v).trusted_ca ≡ some ca)
trusted_ca-with_trusted_ca root v = go v.trusted_ca refl
  where
    go :
        (o : Option String)
        → v.trusted_ca ≡ o
        → (ca : String) × ((with_trusted_ca root v).trusted_ca ≡ some ca)
    go none e = (root, rw e refl)
    go (some ca) e = (ca, rw e refl)

trusted_ca-new_validation_context :
    (i : Issuer) (c : Settings) (validation : Option Yaml) (v : CertificateValidationContext)
    → new_validation_context i c validation ≡ ok v
    → (ca : String) × (v.trusted_ca ≡ some ca)
unfolding new_validation_context
trusted_ca-new_validation_context i c none v h = (i.root_cert_bytes, rw (← ok-injective h) refl)
trusted_ca-new_validation_context i c (some y) v h = elim (Bool-cases c.ssl_do_not_use_validation) [
  | inl e ↦ (i.root_cert_bytes, rw (← ok-injective (rw (e, new_validation_context) at h)) refl)
  | inr e ↦
      let (json, _, p) =
        >>=-eq-ok (wrapped "json.Marshal(yamlObjJSON)" (i.to_json y)) _
          (rw (e, new_validation_context) at h) in
      let (own, _, q) =
        >>=-eq-ok (wrapped "protojson.Unmarshal(jsonObj)" (i.unmarshal_validation json)) _ p in
      rw (← ok-injective q) (trusted_ca-with_trusted_ca i.root_cert_bytes own)
]

-- When `NewSecrets` succeeds, it returns the certificate under the name of the settings and a
-- validation context that names a certificate authority, also where the node's own context names
-- none.
pub new_secrets-trusted :
    (i : Issuer) (c : Settings) (dns_name : String) (validation : Option Yaml)
    (secrets : List Secret)
    → new_secrets i c dns_name validation ≡ ok secrets
    → (chain key ca : String) × (v : CertificateValidationContext) × (secrets
        ≡ record { name = c.ssl_name; secret_type = tls_certificate chain key }
          ∷ record { name = "validation"; secret_type = validation_context v }
          ∷ [])
      × (v.trusted_ca ≡ some ca)
unfolding new_secrets
new_secrets-trusted i c dns_name validation secrets h =
    let ((chain, key), _, p) = >>=-eq-ok (i.new_certificate (dns_name ∷ []) cert_validity) _ h in
    let (v, q, s) = >>=-eq-ok (new_validation_context i c validation) _ p in
    let (ca, t) = trusted_ca-new_validation_context i c validation v q in
    (chain, key, ca, v, sym (ok-injective s), t)
