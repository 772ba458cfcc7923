-- ===== src/Examples/Tools.antt =====
-- The theorems on the tool that writes certificates and on the handler that issues them, at a disk that is an association list and in
-- the current directory, whose name is "".
use envoy_control_plane.Prelude.{
  if◌then◌else◌, ◌≡◌, refl, String, Option, none, some, List, [], ◌∷◌, Result, ok, err, message,
  returns, Outcome, ◌==◌, eq_refl, ok-injective, subst,
}
use envoy_control_plane.Prelude.Maps.{Map, insert, lookup, lookup-insert}
use envoy_control_plane.Prelude.Texts.{split}
use envoy_control_plane.Config.{Settings}
use envoy_control_plane.Certs.{Issued, Root, cert_validity_max, later, Duration}
use envoy_control_plane.Certs.Issue.{gen_ca_root, server_fields}
use envoy_control_plane.Certs.Issuing.{IsIssued}
use envoy_control_plane.Certs.Load.{init, root_of}
use envoy_control_plane.GenCerts.{Os, main}
use envoy_control_plane.GenCerts.Files.{IsOs, AreWritten}
use envoy_control_plane.GenCerts.Written.{main-init}
use envoy_control_plane.Web.Handlers.{CertsReply, handler_certs}
use envoy_control_plane.Web.Certificates.{IsReply, handler_certs-IsReply}
use envoy_control_plane.Examples.{settings}
use envoy_control_plane.Examples.Issuing.{Blob, x509, x509-IsX509, root}

abbrev found : Option Blob → Result Blob
found none = err (message "no file")
found (some b) = ok b

unfoldable disk : Os Blob
unfolding lookup insert
disk = record {
  Disk = Map Blob;
  read = λ d p. found (lookup p d);
  write = λ d p b. ok (insert p b d);
  join = λ d n. n;
}

disk-IsOs : IsOs disk
unfolding disk
disk-IsOs = record {
  read_self = λ {d} {d'} {p} {content} h.
      subst (λ e. found (lookup p e) ≡ ok content) (ok-injective h)
        (rw (lookup-insert p p content d, eq_refl p) refl);
  read_other = λ {d} {d'} {p} {q} {content} h ne.
      subst (λ e. found (lookup q e) ≡ found (lookup q d)) (ok-injective h)
        (rw (lookup-insert p q content d, ne) refl);
  join_other = λ directory a b _ _ ne. ne;
}

abbrev with_written : Settings
with_written = record settings { ssl_crt = "CA.crt"; ssl_key = "CA.key" }

unfoldable empty : disk.Disk
unfolding disk
empty = []

abbrev written {ℓ} : {A : Type ℓ} → A → Outcome (Result A) → A
written a (returns (ok d)) = d
written a _ = a

unfoldable after : disk.Disk
unfolding main empty
after = written empty (main x509 disk 0 1 2 100 settings "" "a.test,b.test" empty)

ran : main x509 disk 0 1 2 100 settings "" "a.test,b.test" empty ≡ returns (ok after)
unfolding main disk lookup insert after settings init gen_ca_root split
ran = refl

set_paths : (settings.ssl_crt ≡ "") × (settings.ssl_key ≡ "")
unfolding settings
set_paths = (refl, refl)

named_paths :
    (with_written.ssl_crt ≡ disk.join "" "CA.crt") × (with_written.ssl_key ≡ disk.join "" "CA.key")
unfolding disk
named_paths = (refl, refl)

main-init_example :
    (root : Root x509) × (server envoy : Issued x509) × (n : String) × (ns : List String) × (init
        x509 7 9
        (disk.read after)
        with_written
      ≡ returns (ok root))
    × (split "a.test,b.test" b',' ≡ n ∷ ns)
    × AreWritten x509 disk disk-IsOs after "" "server.crt" "server.key" server
    × IsIssued x509 (server_fields 100 n ns (later cert_validity_max)) root.ca_key server
    × AreWritten x509 disk disk-IsOs after "" "envoy.crt" "envoy.key" envoy
    × IsIssued x509 (server_fields 100 "envoy" [] (later cert_validity_max)) root.ca_key envoy
main-init_example =
    main-init x509 disk disk-IsOs x509-IsX509 0 1 2 100 7 9 settings with_written "" "a.test,b.test"
      empty set_paths.0 set_paths.1 ran refl named_paths.0 refl named_paths.1

abbrev hour : String → Result Duration
hour s = if s == "1h" then ok (later 3600) else err (message "invalid duration")

handler_certs-IsReply_example :
    (reply : CertsReply Blob) × (handler_certs x509 1 100 (root_of x509 root) hour "envoy" "1h"
      ≡ returns reply)
    × IsReply x509 x509-IsX509 1 100 (root_of x509 root) hour "envoy" "1h" reply
handler_certs-IsReply_example =
    handler_certs-IsReply x509 x509-IsX509 1 100 (root_of x509 root) hour "envoy" "1h"
