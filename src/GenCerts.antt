-- ===== src/GenCerts.antt =====
-- cmd/gencerts/main.go: the tool that writes a root certificate and two server certificates into
-- a directory. log.Fatal ends it with an error.
pub mod Files
pub mod Written
use envoy_control_plane.Prelude.{
  ◌≡◌, ℕ, String, Bool, List, [], ◌∷◌, Result, ok, attempt, chain, Outcome, returns, ◌>>=◌, not,
  ◌==◌, ◌&&◌, if◌then◌else◌,
}
use envoy_control_plane.Prelude.Maps.{Map, insert}
use envoy_control_plane.Prelude.Texts.{split}
use envoy_control_plane.Config.{Settings}
use envoy_control_plane.Certs.{X509, Issued, Root, cert_validity_max, later}
use envoy_control_plane.Certs.Issue.{gen_server_cert, get_loaded_root_key_bytes}
use envoy_control_plane.Certs.Load.{init}

-- The file system and package path: `read` is os.ReadFile, `write` os.WriteFile, and `join` is
-- path.Join of a directory and a name.
pub record Os (Bytes : Type 0) : Type 1 where
  pub Disk : Type 0
  pub read : Disk → String → Result Bytes
  pub write : Disk → (path : String) → (content : Bytes) → Result Disk
  pub join : (directory name : String) → String

module _ (x : X509) (o : Os x.Bytes) where
  -- The map `files`, after both certificates.
  unfoldable pub files_of : Settings → Root x → x.Bytes → (server envoy : Issued x) → Map x.Bytes
  files_of c root root_key_bytes server envoy =
      let root_files =
        if c.ssl_crt == "" && c.ssl_key == ""
        then ("CA.crt", root.ca_cert_bytes) ∷ ("CA.key", root_key_bytes) ∷ []
        else [] in
      let with_server =
        insert "server.key" server.key_bytes (insert "server.crt" server.cert_bytes root_files) in
      insert "envoy.key" envoy.key_bytes (insert "envoy.crt" envoy.cert_bytes with_server)

  unfoldable pub write_files : o.Disk → String → Map x.Bytes → Result o.Disk
  write_files disk cert_path [] = ok disk
  write_files disk cert_path ((name, content) ∷ files) = do
    written ← o.write disk (o.join cert_path name) content
    write_files written cert_path files

  -- `e`, `e₁` and `e₂` are the random numbers of the root and of the two certificates.
  unfoldable pub main :
      (e e₁ e₂ now : ℕ)
      → Settings
      → (cert_path dns_names : String) → o.Disk
      → Outcome (Result o.Disk)
  unfolding init get_loaded_root_key_bytes gen_server_cert files_of write_files
  main e e₁ e₂ now c cert_path dns_names disk = chain (init x e now (o.read disk) c) (λ root.
      attempt (get_loaded_root_key_bytes x root) (λ root_key_bytes.
        chain
          (gen_server_cert x e₁ now (split dns_names b',') root.ca_cert root.ca_key
            (later cert_validity_max))
          (λ server.
            chain
              (gen_server_cert x e₂ now ("envoy" ∷ []) root.ca_cert root.ca_key
                (later cert_validity_max))
              (λ envoy.
                returns
                  (write_files disk cert_path (files_of c root root_key_bytes server envoy))))))
