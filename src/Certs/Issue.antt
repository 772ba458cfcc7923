-- ===== src/Certs/Issue.antt =====
-- pkg/certs/certs.go: genCert, GenCARoot, GenServerCert, NewCertificate, exportPrivateKey and
-- GetLoadedRootKeyBytes.
use envoy_control_plane.Prelude.{
  ℕ, ◌+◌, ◌-◌, String, true, false, List, [], ◌∷◌, Result, ok, wrapped, attempt, Outcome, returns,
  panics, ◌>>=◌,
}
use envoy_control_plane.Certs.{
  Duration, add, cert_sign, crl_sign, digital_signature, server_auth, client_auth, CertFields, X509,
  key_bits, cert_validity_max, ssl_max_path_len, app_name, Issued, Root,
}

abbrev pub root_fields : ℕ → CertFields
root_fields now = record {
  serial_number = 1;
  subject = record {
    country = "US" ∷ [];
    organization = app_name ∷ [];
    organizational_unit = "CA" ∷ [];
    common_name = app_name;
  };
  dns_names = [];
  not_before = now - 10;
  not_after = now + cert_validity_max;
  key_usage = cert_sign ∷ crl_sign ∷ [];
  ext_key_usage = server_auth ∷ client_auth ∷ [];
  basic_constraints_valid = true;
  is_ca = true;
  max_path_len = ssl_max_path_len;
  max_path_len_zero = false;
}

abbrev pub server_fields : ℕ → String → List String → Duration → CertFields
server_fields now dns_name dns_names duration = record {
  serial_number = now;
  subject = record {
    country = "US" ∷ [];
    organization = app_name ∷ [];
    organizational_unit = "CLIENT" ∷ [];
    common_name = dns_name;
  };
  dns_names = dns_name ∷ dns_names;
  not_before = now - 10;
  not_after = add now duration;
  key_usage = digital_signature ∷ [];
  ext_key_usage = server_auth ∷ client_auth ∷ [];
  basic_constraints_valid = false;
  is_ca = false;
  max_path_len = 0;
  max_path_len_zero = true;
}

module _ (x : X509) where
  open x use {
    Bytes, Key, PublicKey, Certificate, template, public_key, generate_key, create_certificate,
    parse_certificate, marshal_key, parse_key, encode, decode,
  }

  unfoldable pub gen_cert :
      ℕ → Certificate → Certificate → PublicKey → Key → Result (Certificate × Bytes)
  gen_cert e from parent public private = do
    cert_bytes ←
        wrapped "Failed to create certificate" (create_certificate e from parent public private)
    cert ← wrapped "Failed to parse certificate" (parse_certificate cert_bytes)
    ok (cert, encode "CERTIFICATE" cert_bytes)

  unfoldable pub export_private_key : Key → Result Bytes
  export_private_key private = do
    private_bytes ← marshal_key private
    ok (encode "PRIVATE KEY" private_bytes)

  unfoldable pub gen_ca_root : ℕ → ℕ → Result (Issued x)
  unfolding gen_cert export_private_key
  gen_ca_root e now = do
    private ← wrapped "Failed to generate key" (generate_key e key_bits)
    let root = template (root_fields now)
    (cert, cert_bytes) ←
        wrapped "Failed to generate cert" (gen_cert e root root (public_key private) private)
    key_bytes ← wrapped "Failed to generate private key" (export_private_key private)
    ok (record { cert = cert; cert_bytes = cert_bytes; key = private; key_bytes = key_bytes })

  -- The rest of `GenServerCert`, with its key and the names that it has.
  unfoldable pub sign_server_cert :
      ℕ → ℕ → String → List String → Certificate → Key → Duration → Key → Result (Issued x)
  unfolding gen_cert export_private_key
  sign_server_cert e now dns_name dns_names root_cert root_key duration private = do
    (cert, cert_bytes) ← wrapped "Failed to generate cert" (
        gen_cert e (template (server_fields now dns_name dns_names duration)) root_cert
          (public_key private) root_key)
    key_bytes ← wrapped "Failed to generate private key" (export_private_key private)
    ok (record { cert = cert; cert_bytes = cert_bytes; key = private; key_bytes = key_bytes })

  -- `dnsNames[0]` of no names panics.
  abbrev pub sign_names :
      ℕ → ℕ → List String → Certificate → Key → Duration → Key → Outcome (Result (Issued x))
  sign_names e now [] root_cert root_key duration private = panics
  sign_names e now (dns_name ∷ dns_names) root_cert root_key duration private =
      returns (sign_server_cert e now dns_name dns_names root_cert root_key duration private)

  unfoldable pub gen_server_cert :
      ℕ → ℕ → List String → Certificate → Key → Duration → Outcome (Result (Issued x))
  unfolding sign_server_cert
  gen_server_cert e now dns_names root_cert root_key duration =
      attempt (wrapped "Failed to generate key" (generate_key e key_bits))
        (λ private. sign_names e now dns_names root_cert root_key duration private)

  unfoldable pub new_certificate :
      ℕ → ℕ → Root x → List String → Duration → Outcome (Result (Issued x))
  unfolding gen_server_cert
  new_certificate e now root dns_names duration =
      gen_server_cert e now dns_names root.ca_cert root.ca_key duration

  abbrev pub get_loaded_root_cert : Root x → Certificate
  get_loaded_root_cert root = root.ca_cert

  abbrev pub get_loaded_root_cert_bytes : Root x → Bytes
  get_loaded_root_cert_bytes root = root.ca_cert_bytes

  abbrev pub get_loaded_root_key : Root x → Key
  get_loaded_root_key root = root.ca_key

  unfoldable pub get_loaded_root_key_bytes : Root x → Result Bytes
  unfolding export_private_key
  get_loaded_root_key_bytes root = export_private_key (get_loaded_root_key root)
