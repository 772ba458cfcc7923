-- ===== src/Examples/Issuing.antt =====
-- Concrete packages for keys and certificates, where a certificate is what it says and who signed
-- it, and a disk that is an association list; and the theorems on certificates at these.
use envoy_control_plane.Prelude.{
  ◌≡◌, refl, sym, String, true, ◌&&◌, Option, none, some, [], ◌∷◌, Result, ok, err, message,
  returns, ◌==◌, eq_refl, nat_beq, subst, ok-injective, if◌then◌else◌,
}
use envoy_control_plane.Config.{Settings}
use envoy_control_plane.Certs.{later, CertFields, X509, IsX509, Holds, Issued}
use envoy_control_plane.Certs.Issue.{
  gen_ca_root, gen_server_cert, root_fields, server_fields, sign_server_cert, gen_cert,
  export_private_key,
}
use envoy_control_plane.Certs.Issuing.{IsServerCertificate, gen_server_cert_lem}
use envoy_control_plane.Examples.{settings}

pub record Cert : Type 0 where
  pub fields : CertFields
  pub holder : String
  pub signer : String

pub data Blob : Type 0 where
  cert_blob : Cert → Blob
  key_blob : String → Blob
  pem : String → Blob → Blob

abbrev pub parse_cert : Blob → Result Cert
parse_cert (cert_blob c) = ok c
parse_cert _ = err (message "no certificate")

abbrev pub parse_key_blob : Blob → Result (Option String)
parse_key_blob (key_blob k) = ok (some k)
parse_key_blob _ = err (message "no key")

abbrev pub decode_blob : Blob → Option (String × Blob)
decode_blob (pem t b) = some (t, b)
decode_blob _ = none

abbrev pub encoded : CertFields → CertFields
encoded f = record f { is_ca = f.basic_constraints_valid && f.is_ca }

abbrev pub x509 : X509
x509 = record {
  Bytes = Blob;
  Key = String;
  PublicKey = String;
  Certificate = Cert;
  fields = λ c. c.fields;
  public_key_of = λ c. c.holder;
  template = λ f. record { fields = f; holder = ""; signer = "" };
  public_key = λ k. k;
  generate_key = λ e bits. ok (if nat_beq e 0 then "root" else "leaf");
  create_certificate =
      λ e t p k s. ok (cert_blob (record { fields = encoded t.fields; holder = k; signer = s }));
  parse_certificate = parse_cert;
  marshal_key = λ k. ok (key_blob k);
  parse_key = parse_key_blob;
  encode = pem;
  decode = decode_blob;
  signed_by = λ c k. c.signer == k;
}

abbrev Made : Cert → String → String → CertFields → Type 0
Made c k s f = Holds c.fields f × (c.holder ≡ k) × ((c.signer == s) ≡ true)

parsed :
    (f : CertFields) (k s : String) {der : Blob} {cert : Cert}
    → Path
        (Result Blob)
        (ok (cert_blob (record { fields = encoded f; holder = k; signer = s })))
        (ok der)
    → parse_cert der ≡ ok cert
    → Made cert k s f
parsed f k s {der} {cert} p q =
    subst (λ c. Made c k s f)
      (ok-injective (subst (λ b. parse_cert b ≡ ok cert) (sym (ok-injective p)) q))
      ((refl, refl, refl, refl, refl, refl, refl, refl), refl, eq_refl s)

pub x509-IsX509 : IsX509 x509
x509-IsX509 = record {
  fields-template = λ f. refl;
  parse-create = λ {t = t} {k = k} {s = s} p q. parsed t.fields k s p q;
  parse-marshal = λ {k} h. subst (λ b. parse_key_blob b ≡ ok (some k)) (ok-injective h) refl;
  decode-encode = λ t b. refl;
}

abbrev pub root : Issued x509
root = record {
  cert = record { fields = encoded (root_fields 100); holder = "root"; signer = "root" };
  cert_bytes =
      pem "CERTIFICATE" (
        cert_blob
          (record { fields = encoded (root_fields 100); holder = "root"; signer = "root" }));
  key = "root";
  key_bytes = pem "PRIVATE KEY" (key_blob "root");
}

abbrev leaf : Issued x509
leaf = record {
  cert = record {
    fields = encoded (server_fields 100 "a.test" ("b.test" ∷ []) (later 60));
    holder = "leaf";
    signer = "root";
  };
  cert_bytes = pem "CERTIFICATE" (
      cert_blob (record {
        fields = encoded (server_fields 100 "a.test" ("b.test" ∷ []) (later 60));
        holder = "leaf";
        signer = "root";
      }));
  key = "leaf";
  key_bytes = pem "PRIVATE KEY" (key_blob "leaf");
}

pub root-made : gen_ca_root x509 0 100 ≡ ok root
unfolding gen_ca_root gen_cert export_private_key
root-made = refl

leaf-made :
    gen_server_cert x509 1 100 ("a.test" ∷ "b.test" ∷ []) root.cert root.key (later 60)
    ≡ returns (ok leaf)
unfolding gen_server_cert sign_server_cert gen_cert export_private_key
leaf-made = refl

gen_server_cert_lem_example :
    IsServerCertificate x509 100 "a.test" ("b.test" ∷ []) (later 60) root.key leaf
gen_server_cert_lem_example =
    gen_server_cert_lem x509 x509-IsX509 1 100 "a.test" ("b.test" ∷ []) root.cert root.key
      (later 60) leaf-made

abbrev pub with_files : Settings
with_files = record settings { ssl_crt = "ca.crt"; ssl_key = "ca.key" }

abbrev files : String → Result Blob
files path = if path == "ca.crt" then ok root.cert_bytes else ok root.key_bytes

abbrev bare_files : String → Result Blob
bare_files path = ok (key_blob "no block")
