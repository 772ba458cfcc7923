-- ===== src/Secrets/Mutual.antt =====
-- pkg/certs/certs.go and `NewSecrets` of pkg/utils/utils.go together: the certificates and the
-- certificate authority that the nodes of one process are given.
use envoy_control_plane.Prelude.{
  ◌≡◌, refl, ap, sym, ◌∙◌, ℕ, ◌*◌, String, true, Option, none, some, List, [], ◌∷◌, Result, ok, err,
  returns, >>=-eq-ok, ok-injective, ◌⊎◌, inl, inr,
}
use envoy_control_plane.Envoy.{
  CertificateValidationContext, Secret, tls_certificate, validation_context,
}
use envoy_control_plane.Config.{Yaml, Settings}
use envoy_control_plane.Certs.{X509, IsX509, Issued, Root, later}
use envoy_control_plane.Certs.Issue.{
  get_loaded_root_cert_bytes, new_certificate, gen_ca_root, server_fields,
}
use envoy_control_plane.Certs.Issuing.{
  IsIssued, IsCertificateText, gen_server_cert-IsIssued, gen_ca_root-IsIssued,
}
use envoy_control_plane.Certs.Load.{root_of}
use envoy_control_plane.Secrets.{Issuer, cert_validity, new_validation_context, new_secrets}

abbrev pub common : Settings → (chain key : String) → CertificateValidationContext → List Secret
common c chain key v =
    record { name = c.ssl_name; secret_type = tls_certificate chain key }
    ∷ record { name = "validation"; secret_type = validation_context v }
    ∷ []

module _ (x : X509) (text : x.Bytes → String) where
  abbrev pub texts : Result (Issued x) → Result (String × String)
  texts (ok i) = ok (text i.cert_bytes, text i.key_bytes)
  texts (err e) = err e

  -- The issuer calls certs.NewCertificate at a time `now`, and certs.GetLoadedRootCertBytes, in a
  -- process with the root `root`; `text` reads bytes as a text.
  pub record IsIssuerOf (e now : ℕ) (root : Root x) (i : Issuer) : Type 0 where
    pub issued : String → ℕ → Result (Issued x)
    pub issues :
        (name : String) (hours : ℕ)
        → new_certificate x e now root (name ∷ []) (later (hours * 3600))
          ≡ returns (issued name hours)
    pub certificate :
        (name : String) (hours : ℕ)
        → i.new_certificate (name ∷ []) hours ≡ texts (issued name hours)
    pub root_bytes : i.root_cert_bytes ≡ text (get_loaded_root_cert_bytes x root)

  texts-eq-ok :
      (m : Result (Issued x)) {chain key : String}
      → texts m ≡ ok (chain, key)
      → (j : Issued x) × (m ≡ ok j) × (text j.cert_bytes ≡ chain) × (text j.key_bytes ≡ key)
  texts-eq-ok (ok j) h = (j, refl, ap (λ p. p.0) (ok-injective h), ap (λ p. p.1) (ok-injective h))
  texts-eq-ok (err e) h = cc

  -- The secrets of a node hold this certificate and this validation context.
  abbrev pub Holds : Settings → List Secret → Issued x → CertificateValidationContext → Type 0
  Holds c secrets j v = secrets ≡ common c (text j.cert_bytes) (text j.key_bytes) v

  new_secrets-issued :
      (laws : IsX509 x) (e now : ℕ) (root : Root x) (i : Issuer) (c : Settings) (name : String)
      → (validation : Option Yaml) {secrets : List Secret} → IsIssuerOf e now root i
      → new_secrets i c name validation ≡ ok secrets
      → (j : Issued x) × (v : CertificateValidationContext) × IsIssued x
          (server_fields now name [] (later (cert_validity * 3600)))
          root.ca_key
          j
        × (new_validation_context i c validation ≡ ok v)
        × Holds c secrets j v
  unfolding new_secrets new_certificate
  new_secrets-issued laws e now root i c name validation o h =
      let ((chain, key), p, q) = >>=-eq-ok (i.new_certificate (name ∷ []) cert_validity) _ h in
      let (v, r, s) = >>=-eq-ok (new_validation_context i c validation) _ q in
      let (j, made, cert, k) =
        texts-eq-ok (o.issued name cert_validity) (sym (o.certificate name cert_validity) ∙ p) in
      (
        j,
        v,
        gen_server_cert-IsIssued x laws e now name [] root.ca_cert root.ca_key
            (later (cert_validity * 3600)) (o.issues name cert_validity ∙ ap returns made),
        r,
        sym (ok-injective s)
            ∙ ap (λ a. common c a key v) (sym cert)
            ∙ ap (λ a. common c (text j.cert_bytes) a v) (sym k),
      )

  trusted_root :
      (i : Issuer) (c : Settings) (validation : Option Yaml) (v : CertificateValidationContext)
      → (validation ≡ none) ⊎ (c.ssl_do_not_use_validation ≡ true)
      → new_validation_context i c validation ≡ ok v
      → v.trusted_ca ≡ some i.root_cert_bytes
  unfolding new_validation_context
  trusted_root i c none v a h = ap (λ z. z.trusted_ca) (sym (ok-injective h))
  trusted_root i c (some y) v (inl e) h = cc
  trusted_root i c (some y) v (inr e) h =
      ap (λ z. z.trusted_ca) (sym (ok-injective (rw (new_validation_context, e) at h)))

  -- In a process whose root certificate GenCARoot generated, where the certificates that NewSecrets
  -- asks for are those of NewCertificate, let NewSecrets succeed for two nodes, at any two times, and
  -- let the second have no validation context of its own or validation be switched off. Then the
  -- second trusts the root certificate alone, which is its text that reads back to it, and the first
  -- holds the texts of a certificate for its own name that this root certificate signed.
  pub new_secrets-mutual :
      (laws : IsX509 x) (e₀ now₀ : ℕ) {r : Issued x}
      → gen_ca_root x e₀ now₀ ≡ ok r
      → (e now e' now' : ℕ) (i i' : Issuer) (c : Settings) (name name' : String)
        (validation validation' : Option Yaml) {secrets secrets' : List Secret}
      → IsIssuerOf e now (root_of x r) i
      → IsIssuerOf e' now' (root_of x r) i'
      → (validation' ≡ none) ⊎ (c.ssl_do_not_use_validation ≡ true)
      → new_secrets i c name validation ≡ ok secrets
      → new_secrets i' c name' validation' ≡ ok secrets'
      → (j j' : Issued x) × (v v' : CertificateValidationContext) × Holds c secrets j v
        × Holds c secrets' j' v'
        × IsIssued x (server_fields now name [] (later (cert_validity * 3600))) r.key j
        × (x.signed_by j.cert (x.public_key_of r.cert) ≡ true)
        × (v'.trusted_ca ≡ some (text r.cert_bytes))
        × IsCertificateText x r.cert_bytes r.cert
  new_secrets-mutual laws e₀ now₀ {r} g e now e' now' i i' c name name' validation validation' o o'
        a h h' =
      let (held, own, signed, readable, key) = gen_ca_root-IsIssued x laws e₀ now₀ g in
      let (j, v, good, u, p) =
        new_secrets-issued laws e now (root_of x r) i c name validation o h in
      let (j', v', good', u', p') =
        new_secrets-issued laws e' now' (root_of x r) i' c name' validation' o' h' in
      let (held_j, own_j, signed_j, readable_j, key_j) = good in
      (
        j,
        j',
        v,
        v',
        p,
        p',
        good,
        ap (x.signed_by j.cert) own ∙ signed_j,
        trusted_root i' c validation' v' a u' ∙ ap some o'.root_bytes,
        readable,
      )
