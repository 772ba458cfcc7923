-- ===== src/Web/Certificates.antt =====
-- pkg/web/web.go: what handlerCerts answers.
use envoy_control_plane.Prelude.{
  message, wrap, Error, ◌≡◌, refl, ℕ, String, true, false, List, [], ◌∷◌, Result, ok, err, returns,
  wrapped, ◌⊎◌, inl, inr, ◌==◌, Bool-cases,
}
use envoy_control_plane.Certs.{X509, IsX509, Issued, Root, Duration, key_bits}
use envoy_control_plane.Certs.Issue.{gen_server_cert, new_certificate, sign_server_cert}
use envoy_control_plane.Certs.Issuing.{IsServerCertificate, gen_server_cert_lem}
use envoy_control_plane.Web.Handlers.{CertsReply, bad_request, written, issue_reply, handler_certs}

module _ (x : X509) (laws : IsX509 x) (e now : ℕ) (root : Root x) where
  -- What is written: nothing if NewCertificate fails, and otherwise the texts of its certificate,
  -- which is for the name alone and signed by the root key, and of its key.
  abbrev pub IsWritten : String → Duration → List x.Bytes → Type 0
  IsWritten name d l =
      ((f : Error) × (new_certificate x e now root (name ∷ []) d ≡ returns (err f)) × (l ≡ []))
      ⊎ ((i : Issued x) × (new_certificate x e now root (name ∷ []) d ≡ returns (ok i))
          × IsServerCertificate x now name [] d root.ca_key i
          × (l ≡ i.cert_bytes ∷ i.key_bytes ∷ []))

  -- A refusal has one of its three reasons.
  abbrev pub IsReply :
      (String → Result Duration) → (name duration : String) → CertsReply x.Bytes → Type 0
  IsReply parse_duration name duration (bad_request f) =
      ((name == "") ≡ true)
      ⊎ ((duration == "") ≡ true)
      ⊎ ((g : _) × (parse_duration duration ≡ err g))
  IsReply parse_duration name duration (written l) =
      ((name == "") ≡ false)
      × ((duration == "") ≡ false)
      × ((d : Duration) × (parse_duration duration ≡ ok d) × IsWritten name d l)

  generated :
      (name : String) (d : Duration) (r : Result x.Key)
      → x.generate_key e key_bits ≡ r
      → (m : Result (Issued x)) × (new_certificate x e now root (name ∷ []) d ≡ returns m)
  unfolding new_certificate gen_server_cert
  generated name d (ok k) h = (
    sign_server_cert x e now name [] root.ca_cert root.ca_key d k,
    rw (new_certificate, gen_server_cert, h) refl,
  )
  generated name d (err f) h =
      (wrapped "Failed to generate key" (err f), rw (new_certificate, gen_server_cert, h) refl)

  issued :
      (name : String) (d : Duration) (m : Result (Issued x))
      → new_certificate x e now root (name ∷ []) d ≡ returns m
      → (l : List x.Bytes) × (issue_reply x e now root name d ≡ returns (written l))
        × IsWritten name d l
  unfolding issue_reply new_certificate
  issued name d (err f) h = ([], rw (issue_reply, h) refl, inl (f, h, refl))
  issued name d (ok i) h = (
    i.cert_bytes ∷ i.key_bytes ∷ [],
    rw (issue_reply, h) refl,
    inr (i, h, gen_server_cert_lem x laws e now name [] root.ca_cert root.ca_key d h, refl),
  )

  parsed :
      (parse_duration : String → Result Duration) (name duration : String) (p : Result Duration)
      → parse_duration duration ≡ p
      → (name == "") ≡ false
      → (duration == "") ≡ false
      → (reply : CertsReply x.Bytes) × (handler_certs x e now root parse_duration name duration
          ≡ returns reply)
        × IsReply parse_duration name duration reply
  unfolding handler_certs
  parsed parse_duration name duration (err f) h n s = (
    bad_request (wrap f "error in parsing duration"),
    rw (handler_certs, n, s, h) refl,
    inr (inr (f, h)),
  )
  parsed parse_duration name duration (ok d) h n s =
      let (m, p) = generated name d _ refl in
      let (l, q, r) = issued name d m p in
      (written l, rw (handler_certs, n, s, h) q, (n, s, (d, h, r)))

  -- handlerCerts always answers, and never panics. It refuses a request only if the name or the
  -- duration is missing or the duration cannot be parsed. Otherwise it writes nothing if
  -- NewCertificate fails, and if it succeeds the PEM texts of its certificate and its key, where the
  -- certificate carries that name alone, is valid from ten seconds before `now` until the parsed
  -- duration after it and is signed by the root key.
  pub handler_certs-IsReply :
      (parse_duration : String → Result Duration) (name duration : String)
      → (reply : CertsReply x.Bytes) × (handler_certs x e now root parse_duration name duration
          ≡ returns reply)
        × IsReply parse_duration name duration reply
  unfolding handler_certs
  handler_certs-IsReply parse_duration name duration = elim (Bool-cases (name == "")) [
    | inl n ↦ (bad_request (message "no name"), rw (handler_certs, n) refl, inl n)
    | inr n ↦ elim (Bool-cases (duration == "")) [
      | inl s ↦ (bad_request (message "no duration"), rw (handler_certs, n, s) refl, inr (inl s))
      | inr s ↦ parsed parse_duration name duration _ refl n s
    ]
  ]
