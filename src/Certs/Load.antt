-- ===== src/Certs/Load.antt =====
-- pkg/certs/certs.go: Init and loadCAFromFiles.
use envoy_control_plane.Prelude.{
  ℕ, String, not, ◌&&◌, Option, none, some, Result, ok, err, message, wrapped, attempt, Outcome,
  returns, panics, ◌>>=◌, ◌==◌, if◌then◌else◌,
}
use envoy_control_plane.Config.{Settings}
use envoy_control_plane.Certs.{X509, Issued, Root}
use envoy_control_plane.Certs.Issue.{gen_ca_root}

module _ (x : X509) where
  open x use {Bytes, Key, Certificate, parse_certificate, parse_key, decode}

  -- `pem.Decode` answers nil for a text without a block: the read of `Bytes` panics.
  abbrev pub block_bytes : Option (String × Bytes) → Outcome Bytes
  block_bytes none = panics
  block_bytes (some (block_type, bytes)) = returns bytes

  abbrev pub assert_rsa : Option Key → Result Key
  assert_rsa none = err (message "assertion error")
  assert_rsa (some key) = ok key

  -- The second half of `loadCAFromFiles`, with the certificate.
  unfoldable pub load_key : Bytes → Certificate → Bytes → Outcome (Result (Root x))
  load_key cert_bytes cert key_bytes = elim (block_bytes (decode key_bytes)) [
    | panics ↦ panics
    | returns key_block ↦ returns (do
      key ← wrapped "can not parse key" (parse_key key_block)
      private_key ← assert_rsa key
      ok (record { ca_cert = cert; ca_cert_bytes = cert_bytes; ca_key = private_key }))
  ]

  -- `files` is os.ReadFile.
  unfoldable pub read_key :
      (String → Result Bytes) → Settings → Bytes → Certificate → Outcome (Result (Root x))
  unfolding load_key
  read_key files c cert_bytes cert =
      attempt (wrapped "can not load key" (files c.ssl_key))
        (λ key_bytes. load_key cert_bytes cert key_bytes)

  unfoldable pub load_cert : (String → Result Bytes) → Settings → Bytes → Outcome (Result (Root x))
  unfolding read_key
  load_cert files c cert_bytes = elim (block_bytes (decode cert_bytes)) [
    | panics ↦ panics
    | returns cert_block ↦
        attempt (wrapped "can not parse certicate" (parse_certificate cert_block))
          (λ cert. read_key files c cert_bytes cert)
  ]

  unfoldable pub load_ca_from_files : (String → Result Bytes) → Settings → Outcome (Result (Root x))
  unfolding load_cert
  load_ca_from_files files c =
      attempt (wrapped "can not load certicate" (files c.ssl_crt))
        (λ cert_bytes. load_cert files c cert_bytes)

  abbrev pub root_of : Issued x → Root x
  root_of i = record { ca_cert = i.cert; ca_cert_bytes = i.cert_bytes; ca_key = i.key }

  unfoldable pub init : ℕ → ℕ → (String → Result Bytes) → Settings → Outcome (Result (Root x))
  unfolding load_ca_from_files gen_ca_root
  init e now files c =
      if not (c.ssl_crt == "") && not (c.ssl_key == "")
      then load_ca_from_files files c
      else returns (do issued ← gen_ca_root x e now; ok (root_of issued))
