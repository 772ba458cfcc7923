-- ===== src/Certs/Loading.antt =====
-- pkg/certs/certs.go: what Init makes of the files of a root certificate.
use envoy_control_plane.Prelude.{
  ◌⊎◌, inl, inr, ◌≡◌, refl, ℕ, String, false, none, Result, ok, returns, panics, ◌==◌,
}
use envoy_control_plane.Config.{Settings}
use envoy_control_plane.Certs.{X509, IsX509, Issued}
use envoy_control_plane.Certs.Issue.{gen_ca_root}
use envoy_control_plane.Certs.Issuing.{IsCertificateText, IsKeyText, gen_ca_root-IsIssued}
use envoy_control_plane.Certs.Load.{
  load_key, read_key, load_cert, load_ca_from_files, root_of, init,
}

module _ (x : X509) (files : String → Result x.Bytes) (c : Settings) where
  -- Both paths are set, to files that were read as these texts.
  pub record Has (cert_text key_text : x.Bytes) : Type 0 where
    pub crt_set : (c.ssl_crt == "") ≡ false
    pub key_set : (c.ssl_key == "") ≡ false
    pub crt_file : files c.ssl_crt ≡ ok cert_text
    pub key_file : files c.ssl_key ≡ ok key_text

  pub init_loads :
      (e now : ℕ) {a b : x.Bytes} {cert : x.Certificate} {key : x.Key}
      → Has a b
      → IsCertificateText x a cert
      → IsKeyText x b key
      → init x e now files c
        ≡ returns (ok (record { ca_cert = cert; ca_cert_bytes = a; ca_key = key }))
  unfolding init load_ca_from_files load_cert read_key load_key
  init_loads e now h (bytes, p, q) (key_bytes, r, s) =
      rw
        (
          h.crt_set, h.key_set, load_ca_from_files, h.crt_file, load_cert, p, q, read_key,
          h.key_file, load_key, r, s,
        )
        refl

  -- If GenCARoot generates a root certificate and its two PEM texts stand in the files of
  -- ssl.crt and ssl.key, then Init loads exactly that certificate, its text and its private key.
  pub init-gen_ca_root :
      (laws : IsX509 x) (e now : ℕ) {i : Issued x} (e' now' : ℕ)
      → gen_ca_root x e now ≡ ok i
      → Has i.cert_bytes i.key_bytes
      → init x e' now' files c ≡ returns (ok (root_of x i))
  init-gen_ca_root laws e now e' now' h g =
      let (_, _, _, cert_text, key_text) = gen_ca_root-IsIssued x laws e now h in
      init_loads e' now' g cert_text key_text

  -- If both paths are set and both files are read, Init panics instead of giving an error if the
  -- file of ssl.crt holds no PEM block, and also if that file holds a certificate and the file of
  -- ssl.key holds no PEM block.
  pub init_panics :
      (e now : ℕ) {a b : x.Bytes} (cert : x.Certificate)
      → Has a b
      → (x.decode a ≡ none) ⊎ (IsCertificateText x a cert × (x.decode b ≡ none))
      → init x e now files c ≡ panics
  unfolding init load_ca_from_files load_cert read_key load_key
  init_panics e now cert h (inl p) =
      rw (h.crt_set, h.key_set, load_ca_from_files, h.crt_file, load_cert, p) refl
  init_panics e now cert h (inr ((bytes, p, q), r)) =
      rw
        (
          h.crt_set, h.key_set, load_ca_from_files, h.crt_file, load_cert, p, q, read_key,
          h.key_file, load_key, r,
        )
        refl
