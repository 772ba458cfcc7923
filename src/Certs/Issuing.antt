-- ===== src/Certs/Issuing.antt =====
-- pkg/certs/certs.go: what genCert, exportPrivateKey, GenCARoot and GenServerCert give.
use envoy_control_plane.Prelude.{
  ◌≡◌, ap, sym, ◌∙◌, subst, ℕ, ◌-◌, String, true, false, some, [], List, ◌∷◌, ok, wrapped, returns,
  attempt-eq-ok, >>=-eq-ok, wrapped-eq-ok, ok-injective, returns-injective,
}
use envoy_control_plane.Certs.{
  Duration, add, digital_signature, server_auth, client_auth, CertFields, X509, IsX509, Holds,
  Issued, key_bits,
}
use envoy_control_plane.Certs.Issue.{
  gen_cert, export_private_key, gen_ca_root, sign_server_cert, gen_server_cert, root_fields,
  server_fields,
}

module _ (x : X509) where
  open x use {
    Bytes, Key, PublicKey, Certificate, fields, template, public_key, public_key_of, signed_by,
    decode, parse_certificate, parse_key, create_certificate, marshal_key, encode, generate_key,
  }

  -- The PEM text `text` is a block of the type `block_type`, of which `Good` holds.
  abbrev pub IsBlock : String → Bytes → (Bytes → Type 0) → Type 0
  IsBlock block_type text Good =
      (bytes : Bytes) × (decode text ≡ some (block_type, bytes)) × Good bytes

  abbrev pub IsCertificateText : Bytes → Certificate → Type 0
  IsCertificateText text cert =
      IsBlock "CERTIFICATE" text (λ bytes. parse_certificate bytes ≡ ok cert)

  abbrev pub IsKeyText : Bytes → Key → Type 0
  IsKeyText text key = IsBlock "PRIVATE KEY" text (λ bytes. parse_key bytes ≡ ok (some key))

  -- The certificate holds what `f` says and the public half of its key, the key `signer` signed it,
  -- and its two texts are read back to it and to its key.
  abbrev pub IsIssued : CertFields → Key → Issued x → Type 0
  IsIssued f signer i =
      Holds (fields i.cert) f
      × (public_key_of i.cert ≡ public_key i.key)
      × (signed_by i.cert (public_key signer) ≡ true)
      × IsCertificateText i.cert_bytes i.cert
      × IsKeyText i.key_bytes i.key

  -- The certificate is for the names `n ∷ ns`, no authority, valid from ten seconds before `now`
  -- until `d` after it, usable on both sides of a connection, for its own key and signed by
  -- `signer`, and its two texts are read back to it and to its key.
  abbrev pub IsServerCertificate : ℕ → String → List String → Duration → Key → Issued x → Type 0
  IsServerCertificate now n ns d signer i =
      ((fields i.cert).dns_names ≡ n ∷ ns)
      × ((fields i.cert).subject.common_name ≡ n)
      × ((fields i.cert).not_before ≡ now - 10)
      × ((fields i.cert).not_after ≡ add now d)
      × ((fields i.cert).is_ca ≡ false)
      × ((fields i.cert).key_usage ≡ digital_signature ∷ [])
      × ((fields i.cert).ext_key_usage ≡ server_auth ∷ client_auth ∷ [])
      × (public_key_of i.cert ≡ public_key i.key)
      × (signed_by i.cert (public_key signer) ≡ true)
      × IsCertificateText i.cert_bytes i.cert
      × IsKeyText i.key_bytes i.key

  module _ (laws : IsX509 x) where
    pub export_private_key-text :
        (k : Key) {text : Bytes} → export_private_key x k ≡ ok text → IsKeyText text k
    unfolding export_private_key
    export_private_key-text k h =
        let (bytes, p, q) = >>=-eq-ok (marshal_key k) _ h in
        (
          bytes,
          ap decode (sym (ok-injective q)) ∙ laws.decode-encode "PRIVATE KEY" bytes,
          laws.parse-marshal p,
        )

    gen_cert_parts :
        (e : ℕ) (t parent : Certificate) (k : PublicKey) (s : Key) {cert : Certificate}
        {text : Bytes}
        → gen_cert x e t parent k s ≡ ok (cert, text)
        → (bytes : Bytes) × (create_certificate e t parent k s ≡ ok bytes)
          × (parse_certificate bytes ≡ ok cert)
          × (encode "CERTIFICATE" bytes ≡ text)
    unfolding gen_cert
    gen_cert_parts e t parent k s h =
        let (bytes, p, q) = >>=-eq-ok (wrapped _ (create_certificate e t parent k s)) _ h in
        let (c, r, u) = >>=-eq-ok (wrapped _ (parse_certificate bytes)) _ q in
        let same = ok-injective u in
        (
          bytes,
          wrapped-eq-ok _ _ p,
          wrapped-eq-ok _ _ r ∙ ap (λ both. ok both.0) same,
          ap (λ both. both.1) same,
        )

    issue_lem :
        (e : ℕ) (f : CertFields) (parent : Certificate) (signer private : Key)
        → {cert : Certificate} {text key_text : Bytes}
        → gen_cert x e (template f) parent (public_key private) signer ≡ ok (cert, text)
        → export_private_key x private ≡ ok key_text
        → IsIssued f signer
            (record { cert = cert; cert_bytes = text; key = private; key_bytes = key_text })
    issue_lem e f parent signer private {cert} h g =
        let (bytes, created, parsed, encoded) = gen_cert_parts e _ parent _ signer h in
        let (held, key, signed) = laws.parse-create created parsed in
        (
          subst (λ a. Holds (fields cert) a) (laws.fields-template f) held,
          key,
          signed,
          (bytes, ap decode (sym encoded) ∙ laws.decode-encode "CERTIFICATE" bytes, parsed),
          export_private_key-text private g,
        )

    pub gen_ca_root-IsIssued :
        (e now : ℕ) {i : Issued x} → gen_ca_root x e now ≡ ok i → IsIssued (root_fields now) i.key i
    unfolding gen_ca_root
    gen_ca_root-IsIssued e now h =
        let (private, p, q) = >>=-eq-ok (wrapped _ (generate_key e key_bits)) _ h in
        let root = template (root_fields now) in
        let ((cert, text), r, u) =
          >>=-eq-ok (wrapped _ (gen_cert x e root root (public_key private) private)) _ q in
        let (key_text, v, w) = >>=-eq-ok (wrapped _ (export_private_key x private)) _ u in
        subst (λ i. IsIssued (root_fields now) i.key i) (ok-injective w)
          (issue_lem e (root_fields now) root private private (wrapped-eq-ok _ _ r)
            (wrapped-eq-ok _ _ v))

    sign_server_cert-IsIssued :
        (e now : ℕ) (n : String) (ns : List String) (root_cert : Certificate) (root_key : Key)
        (d : Duration)
        → (private : Key) {i : Issued x}
        → sign_server_cert x e now n ns root_cert root_key d private ≡ ok i
        → IsIssued (server_fields now n ns d) root_key i
    unfolding sign_server_cert
    sign_server_cert-IsIssued e now n ns root_cert root_key d private h =
        let f = server_fields now n ns d in
        let ((cert, text), r, u) =
          >>=-eq-ok (wrapped _ (gen_cert x e (template f) root_cert (public_key private) root_key))
            _ h in
        let (key_text, v, w) = >>=-eq-ok (wrapped _ (export_private_key x private)) _ u in
        subst (IsIssued f root_key) (ok-injective w)
          (issue_lem e f root_cert root_key private (wrapped-eq-ok _ _ r) (wrapped-eq-ok _ _ v))

    -- What GenServerCert gives is issued with the fields of `server_fields`.
    pub gen_server_cert-IsIssued :
        (e now : ℕ) (n : String) (ns : List String) (root_cert : Certificate) (root_key : Key)
        (d : Duration)
        → {i : Issued x} → gen_server_cert x e now (n ∷ ns) root_cert root_key d ≡ returns (ok i)
        → IsIssued (server_fields now n ns d) root_key i
    unfolding gen_server_cert
    gen_server_cert-IsIssued e now n ns root_cert root_key d h =
        let (private, p, q) = attempt-eq-ok (wrapped _ (generate_key e key_bits)) _ h in
        sign_server_cert-IsIssued e now n ns root_cert root_key d private (returns-injective q)

    -- If GenServerCert succeeds for the names `n ∷ ns`, the certificate that it gives carries exactly
    -- these names, the first as its common name, is no certificate authority, is valid from ten
    -- seconds before `now` until the duration after it, may serve and be a client, holds the public
    -- half of the new key and is signed by the root key; and the two PEM texts are read back to this
    -- certificate and this key.
    pub gen_server_cert_lem :
        (e now : ℕ) (n : String) (ns : List String) (root_cert : Certificate) (root_key : Key)
        (d : Duration)
        → {i : Issued x} → gen_server_cert x e now (n ∷ ns) root_cert root_key d ≡ returns (ok i)
        → IsServerCertificate now n ns d root_key i
    gen_server_cert_lem e now n ns root_cert root_key d h =
        let (held, key, signed, text, key_text) =
          gen_server_cert-IsIssued e now n ns root_cert root_key d h in
        let (_, subject, names, before, after, usage, ext_usage, is_ca) = held in
        (
          names,
          ap (λ s. s.common_name) subject,
          before,
          after,
          is_ca,
          usage,
          ext_usage,
          key,
          signed,
          text,
          key_text,
        )
