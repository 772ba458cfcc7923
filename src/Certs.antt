-- ===== src/Certs.antt =====
-- pkg/certs/certs.go: the root certificate of the process, generated or loaded, and the
-- certificates that it issues. Times are whole seconds, as certificates hold
-- them. `e` and `now` are what rand.Reader and time.Now() give in one call.
use envoy_control_plane.Prelude.{
  ℕ, ◌+◌, ◌-◌, ◌*◌, String, Bool, true, ◌&&◌, Option, some, List, Result, ok, ◌≡◌,
}
pub mod Issue
pub mod Load
pub mod Issuing
pub mod Loading

-- pkix.Name, the fields that are set.
pub record Name : Type 0 where
  pub country : List String
  pub organization : List String
  pub organizational_unit : List String
  pub common_name : String

pub data KeyUsage : Type 0 where
  cert_sign crl_sign digital_signature : KeyUsage

pub data ExtKeyUsage : Type 0 where
  server_auth client_auth : ExtKeyUsage

-- x509.Certificate: the fields that a template sets.
pub record CertFields : Type 0 where
  pub serial_number : ℕ
  pub subject : Name
  pub dns_names : List String
  pub not_before : ℕ
  pub not_after : ℕ
  pub key_usage : List KeyUsage
  pub ext_key_usage : List ExtKeyUsage
  pub basic_constraints_valid : Bool
  pub is_ca : Bool
  pub max_path_len : ℕ
  pub max_path_len_zero : Bool

-- crypto/rsa, crypto/x509 and encoding/pem. A private key that was parsed may be of another
-- algorithm, which is `none`. `Bytes` is `[]byte`, and `encode` and `decode` are those of a PEM block, its type and bytes.
pub record X509 : Type 1 where
  pub Bytes : Type 0
  pub Key : Type 0
  pub PublicKey : Type 0
  pub Certificate : Type 0
  pub fields : Certificate → CertFields
  pub public_key_of : Certificate → PublicKey
  pub template : CertFields → Certificate
  pub public_key : Key → PublicKey
  pub generate_key : ℕ → (bits : ℕ) → Result Key
  pub create_certificate : ℕ → (template parent : Certificate) → PublicKey → Key → Result Bytes
  pub parse_certificate : Bytes → Result Certificate
  pub marshal_key : Key → Result Bytes
  pub parse_key : Bytes → Result (Option Key)
  pub encode : (block_type : String) → Bytes → Bytes
  pub decode : Bytes → Option (String × Bytes)
  pub signed_by : Certificate → PublicKey → Bool

abbrev pub key_bits : ℕ
key_bits = 2048

-- A time.Duration in whole seconds, and time.Now().Add of it.
pub data Duration : Type 0 where
  later : ℕ → Duration
  earlier : ℕ → Duration

abbrev pub add : ℕ → Duration → ℕ
add now (later seconds) = now + seconds
add now (earlier seconds) = now - seconds

-- The durations, in seconds.
abbrev pub cert_validity_seconds : ℕ
cert_validity_seconds = 7 * 24 * 3600

abbrev pub cert_validity_year : ℕ
cert_validity_year = 365 * 24 * 3600

abbrev pub cert_validity_max : ℕ
cert_validity_max = 3000 * 24 * 3600

abbrev pub ssl_max_path_len : ℕ
ssl_max_path_len = 2

abbrev pub app_name : String
app_name = "envoy-control-plane"

module _ (x : X509) where
  open x use {Bytes, Key, Certificate}

  -- A certificate with its key, and both in PEM.
  pub record Issued : Type 0 where
    pub cert : Certificate
    pub cert_bytes : Bytes
    pub key : Key
    pub key_bytes : Bytes

  -- `caCert`, `caCertBytes` and `caKey`.
  pub record Root : Type 0 where
    pub ca_cert : Certificate
    pub ca_cert_bytes : Bytes
    pub ca_key : Key

-- What a certificate of a template holds of it, as the documentation of x509.CreateCertificate
-- lists it: `IsCA` is used only if `BasicConstraintsValid` is set.
abbrev pub Holds : CertFields → CertFields → Type 0
Holds held t =
    (held.serial_number ≡ t.serial_number)
    × (held.subject ≡ t.subject)
    × (held.dns_names ≡ t.dns_names)
    × (held.not_before ≡ t.not_before)
    × (held.not_after ≡ t.not_after)
    × (held.key_usage ≡ t.key_usage)
    × (held.ext_key_usage ≡ t.ext_key_usage)
    × (held.is_ca ≡ t.basic_constraints_valid && t.is_ca)

-- What the documentation of these packages promises: a created certificate is parsed to one that
-- holds its template and the given key, signed by the given private key; a private key survives
-- PKCS #8, and the type and the bytes of a block survive PEM.
pub record IsX509 (x : X509) : Type 0 where
  pub fields-template : (f : CertFields) → x.fields (x.template f) ≡ f
  pub parse-create :
      {e : ℕ} {t p : x.Certificate} {k : x.PublicKey} {s : x.Key} {der : x.Bytes}
      → {cert : x.Certificate} → x.create_certificate e t p k s ≡ ok der
      → x.parse_certificate der ≡ ok cert
      → Holds (x.fields cert) (x.fields t)
        × (x.public_key_of cert ≡ k)
        × (x.signed_by cert (x.public_key s) ≡ true)
  pub parse-marshal :
      {k : x.Key} {der : x.Bytes} → x.marshal_key k ≡ ok der → x.parse_key der ≡ ok (some k)
  pub decode-encode : (t : String) (b : x.Bytes) → x.decode (x.encode t b) ≡ some (t, b)
