-- ===== src/GenCerts/Written.antt =====
-- cmd/gencerts/main.go: the files that the tool leaves, and the process that is given them.
use envoy_control_plane.Prelude.{
  ◌≡◌, ap, ◌∙◌, subst, ℕ, String, false, List, [], ◌∷◌, Result, ok, returns, ◌==◌, >>=-eq-ok,
  attempt-eq-ok, chain-eq-ok, ok-injective, returns-injective,
}
use envoy_control_plane.Prelude.Texts.{split, split-cons}
use envoy_control_plane.Config.{Settings}
use envoy_control_plane.Certs.{X509, IsX509, Issued, Root, cert_validity_max, later}
use envoy_control_plane.Certs.Issue.{
  gen_ca_root, server_fields, gen_server_cert, get_loaded_root_key_bytes,
}
use envoy_control_plane.Certs.Issuing.{
  IsCertificateText, IsIssued, gen_ca_root-IsIssued, gen_server_cert-IsIssued,
  export_private_key-text,
}
use envoy_control_plane.Certs.Load.{root_of, init}
use envoy_control_plane.Certs.Loading.{init_loads}
use envoy_control_plane.GenCerts.{Os, files_of, write_files, main}
use envoy_control_plane.GenCerts.Files.{IsOs, AreWritten, written_lem}

module _ (x : X509) (o : Os x.Bytes) (os : IsOs o) where
  generated :
      (e now : ℕ) (c : Settings) (read : String → Result x.Bytes) {root : Root x}
      → c.ssl_crt ≡ ""
      → init x e now read c ≡ returns (ok root)
      → (i : Issued x) × (gen_ca_root x e now ≡ ok i) × (root_of x i ≡ root)
  unfolding init
  generated e now c read crt h =
      let (i, p, q) = >>=-eq-ok (gen_ca_root x e now) _ (returns-injective (rw (init, crt) at h)) in
      (i, p, ok-injective q)

  -- The steps of a run that ends without an error.
  record Run (e e₁ e₂ now : ℕ) (c : Settings) (dir names : String) (d d' : o.Disk) : Type 0 where
    root : Root x
    key_text : x.Bytes
    server : Issued x
    envoy : Issued x
    loaded : init x e now (o.read d) c ≡ returns (ok root)
    exported : get_loaded_root_key_bytes x root ≡ ok key_text
    server_made :
        gen_server_cert x e₁ now
          (split names b',')
          root.ca_cert
          root.ca_key
          (later cert_validity_max)
        ≡ returns (ok server)
    envoy_made :
        gen_server_cert x e₂ now ("envoy" ∷ []) root.ca_cert root.ca_key (later cert_validity_max)
        ≡ returns (ok envoy)
    saved : write_files x o d dir (files_of x o c root key_text server envoy) ≡ ok d'

  main-Run :
      (e e₁ e₂ now : ℕ) (c : Settings) (dir names : String) (d : o.Disk) {d' : o.Disk}
      → main x o e e₁ e₂ now c dir names d ≡ returns (ok d')
      → Run e e₁ e₂ now c dir names d d'
  unfolding main
  main-Run e e₁ e₂ now c dir names d h =
      let (root, p, q) = chain-eq-ok (init x e now (o.read d) c) _ h in
      let (key_text, r, s) = attempt-eq-ok (get_loaded_root_key_bytes x root) _ q in
      let (server, t, u) =
        chain-eq-ok
          (gen_server_cert x e₁ now (split names b',') root.ca_cert root.ca_key
            (later cert_validity_max))
          _ s in
      let (envoy, v, w) =
        chain-eq-ok
          (gen_server_cert x e₂ now ("envoy" ∷ []) root.ca_cert root.ca_key
            (later cert_validity_max))
          _ u in
      record {
        root = root;
        key_text = key_text;
        server = server;
        envoy = envoy;
        loaded = p;
        exported = r;
        server_made = t;
        envoy_made = v;
        saved = returns-injective w;
      }

  -- If the tool ends without an error and the paths of ssl.crt and ssl.key are empty, then the
  -- process that is given the written CA.crt and CA.key loads a root certificate, and with the
  -- directory hold, in server.crt and server.key, a certificate and its key that this root key
  -- signed for the names of the flag, in their order, and in envoy.crt and envoy.key one for the
  -- name "envoy", both valid for the longest duration.
  pub main-init :
      (laws : IsX509 x) (e e₁ e₂ now e' now' : ℕ) (c c' : Settings) (dir names : String)
      → (d : o.Disk) {d' : o.Disk} → c.ssl_crt ≡ ""
      → c.ssl_key ≡ ""
      → main x o e e₁ e₂ now c dir names d ≡ returns (ok d')
      → (c'.ssl_crt == "") ≡ false
      → c'.ssl_crt ≡ o.join dir "CA.crt"
      → (c'.ssl_key == "") ≡ false
      → c'.ssl_key ≡ o.join dir "CA.key"
      → (root : Root x) × (server envoy : Issued x) × (n : String) × (ns : List String) × (init x e'
            now'
            (o.read d')
            c'
          ≡ returns (ok root))
        × (split names b',' ≡ n ∷ ns)
        × AreWritten x o os d' dir "server.crt" "server.key" server
        × IsIssued x (server_fields now n ns (later cert_validity_max)) root.ca_key server
        × AreWritten x o os d' dir "envoy.crt" "envoy.key" envoy
        × IsIssued x (server_fields now "envoy" [] (later cert_validity_max)) root.ca_key envoy
  unfolding get_loaded_root_key_bytes
  main-init laws e e₁ e₂ now e' now' c c' dir names d {d'} crt key h crt_set crt_path key_set
        key_path =
      let r = main-Run e e₁ e₂ now c dir names d h in
      let (crt_file, key_file, server_files, envoy_files) =
        written_lem x o os d dir c r.root r.key_text r.server r.envoy crt key r.saved in
      let (n, ns, parts) = split-cons names b',' in
      let (i, made, same) = generated e now c (o.read d) crt r.loaded in
      let (_, _, _, text, _) = gen_ca_root-IsIssued x laws e now made in
      let good = subst (λ a. IsCertificateText x a.ca_cert_bytes a.ca_cert) same text in
      let loads =
        init_loads x (o.read d') c' e' now'
          (record {
            crt_set = crt_set;
            key_set = key_set;
            crt_file = ap (o.read d') crt_path ∙ crt_file;
            key_file = ap (o.read d') key_path ∙ key_file;
          })
          good (export_private_key-text x laws r.root.ca_key r.exported) in
      let server_made =
        subst
          (λ l.
            gen_server_cert x e₁ now l r.root.ca_cert r.root.ca_key (later cert_validity_max)
            ≡ returns (ok r.server))
          parts r.server_made in
      (
        r.root,
        r.server,
        r.envoy,
        n,
        ns,
        loads,
        parts,
        server_files,
        gen_server_cert-IsIssued x laws e₁ now n ns r.root.ca_cert r.root.ca_key
            (later cert_validity_max) server_made,
        envoy_files,
        gen_server_cert-IsIssued x laws e₂ now "envoy" [] r.root.ca_cert r.root.ca_key
            (later cert_validity_max) r.envoy_made,
      )
