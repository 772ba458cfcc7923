-- ===== src/GenCerts/Files.antt =====
-- cmd/gencerts/main.go: the loop that writes the files, and what the directory holds after it.
use envoy_control_plane.Prelude.{
  ◌≡◌, refl, sym, ap, ◌∙◌, String, Bool, true, false, not, ◌&&◌, some, [], ◌∷◌, ok, ◌==◌, nat_beq,
  arith, eq_iff, >>=-eq-ok, ok-injective, some-injective, Bool-cases, inl, inr,
}
use envoy_control_plane.Prelude.Maps.{Map, lookup, insert, IsAbsent, HasUniqueKeys}
use envoy_control_plane.Config.{Settings}
use envoy_control_plane.Certs.{X509, Issued, Root}
use envoy_control_plane.GenCerts.{Os, files_of, write_files}
use Prim.Native.Char.{code}
use Prim.Native.String as Str

-- Where a name is a single element of a path, which path.Join keeps.
no_slash : String → Bool
no_slash Str.[] = true
no_slash (Str.◌∷◌ c s) = not (nat_beq (code c) b'/') && no_slash s

unfoldable pub is_file_name : String → Bool
unfolding no_slash
is_file_name s = not (s == "") && not (s == ".") && not (s == "..") && no_slash s

-- What the documentation of os and path promises: a file that was written is read back, other
-- files are as they were, and different names in one directory are different files.
pub record IsOs {Bytes : Type 0} (o : Os Bytes) : Type 0 where
  pub read_self :
      {d d' : o.Disk} {p : String} {content : Bytes}
      → o.write d p content ≡ ok d'
      → o.read d' p ≡ ok content
  pub read_other :
      {d d' : o.Disk} {p q : String} {content : Bytes}
      → o.write d p content ≡ ok d'
      → (p == q) ≡ false
      → o.read d' q ≡ o.read d q
  pub join_other :
      (directory a b : String)
      → is_file_name a ≡ true
      → is_file_name b ≡ true
      → (a == b) ≡ false
      → (o.join directory a == o.join directory b) ≡ false

module _ (x : X509) (o : Os x.Bytes) (os : IsOs o) where
  abbrev AllNames : Map x.Bytes → Type 0
  AllNames [] = Unit
  AllNames ((k, v) ∷ m) = (is_file_name k ≡ true) × AllNames m

  read_absent :
      (d : o.Disk) (dir q : String) (m : Map x.Bytes) {d' : o.Disk}
      → is_file_name q ≡ true
      → AllNames m
      → IsAbsent q m
      → write_files x o d dir m ≡ ok d'
      → o.read d' (o.join dir q) ≡ o.read d (o.join dir q)
  unfolding write_files
  read_absent d dir q [] fine names new h = ap (λ s. o.read s (o.join dir q)) (sym (ok-injective h))
  read_absent d dir q ((k, v) ∷ m) fine (name, names) (ne, new) h =
      let (w, p, r) = >>=-eq-ok (o.write d (o.join dir k) v) _ h in
      read_absent w dir q m fine names new r
      ∙ os.read_other p (os.join_other dir k q name fine (ground (arith, eq_iff k q, eq_iff q k)))

  read-write_files :
      (d : o.Disk) (dir q : String) (m : Map x.Bytes) {d' : o.Disk} {v : x.Bytes}
      → AllNames m
      → HasUniqueKeys m
      → write_files x o d dir m ≡ ok d'
      → lookup q m ≡ some v
      → o.read d' (o.join dir q) ≡ ok v
  unfolding write_files lookup
  read-write_files d dir q [] names unique h found = cc
  read-write_files d dir q ((k, w) ∷ m) {d'} {v} (name, names) (new, unique) h found =
      let (s, p, r) = >>=-eq-ok (o.write d (o.join dir k) w) _ h in
      elim (Bool-cases (k == q)) [
        | inl e ↦
            let kept = read_absent s dir k m name names new r ∙ os.read_self p in
            let same = (eq_iff k q).0 e in
            let value = some-injective (rw e at found) in rw (← same, ← value) kept
        | inr e ↦ read-write_files s dir q m names unique r (rw e at found)
      ]

  -- The texts of a certificate and its key stand in the directory.
  abbrev pub AreWritten : o.Disk → (directory crt_name key_name : String) → Issued x → Type 0
  AreWritten d dir crt_name key_name i =
      (o.read d (o.join dir crt_name) ≡ ok i.cert_bytes)
      × (o.read d (o.join dir key_name) ≡ ok i.key_bytes)

  abbrev entries : Root x → x.Bytes → (server envoy : Issued x) → Map x.Bytes
  entries root key_text server envoy =
      ("CA.crt", root.ca_cert_bytes)
      ∷ ("CA.key", key_text)
      ∷ ("server.crt", server.cert_bytes)
      ∷ ("server.key", server.key_bytes)
      ∷ ("envoy.crt", envoy.cert_bytes)
      ∷ ("envoy.key", envoy.key_bytes)
      ∷ []

  read_entry :
      (d : o.Disk) (dir : String) (root : Root x) (key_text : x.Bytes) (server envoy : Issued x)
      → {d' : o.Disk} → write_files x o d dir (entries root key_text server envoy) ≡ ok d'
      → (q : String) (v : x.Bytes) → lookup q (entries root key_text server envoy) ≡ some v
      → o.read d' (o.join dir q) ≡ ok v
  unfolding is_file_name no_slash
  read_entry d dir root key_text server envoy h q v found =
      read-write_files d dir q (entries root key_text server envoy)
        (refl, (refl, (refl, (refl, (refl, (refl, tt))))))
        (
          (refl, (refl, (refl, (refl, (refl, tt))))),
          (
            (refl, (refl, (refl, (refl, tt)))),
            ((refl, (refl, (refl, tt))), ((refl, (refl, tt)), ((refl, tt), (tt, tt)))),
          ),
        )
        h found

  files_of_lem :
      (c : Settings) (root : Root x) (key_text : x.Bytes) (server envoy : Issued x)
      → c.ssl_crt ≡ ""
      → c.ssl_key ≡ ""
      → files_of x o c root key_text server envoy ≡ entries root key_text server envoy
  unfolding files_of insert
  files_of_lem c root key_text server envoy crt key = rw (crt, key) refl

  pub written_lem :
      (d : o.Disk) (dir : String) (c : Settings) (root : Root x) (key_text : x.Bytes)
      → (server envoy : Issued x) {d' : o.Disk} → c.ssl_crt ≡ ""
      → c.ssl_key ≡ ""
      → write_files x o d dir (files_of x o c root key_text server envoy) ≡ ok d'
      → (o.read d' (o.join dir "CA.crt") ≡ ok root.ca_cert_bytes)
        × (o.read d' (o.join dir "CA.key") ≡ ok key_text)
        × AreWritten d' dir "server.crt" "server.key" server
        × AreWritten d' dir "envoy.crt" "envoy.key" envoy
  unfolding lookup
  written_lem d dir c root key_text server envoy crt key h =
      let read_at =
        read_entry d dir root key_text server envoy
          (rw (files_of_lem c root key_text server envoy crt key) at h) in
      (
        read_at "CA.crt" _ refl,
        read_at "CA.key" _ refl,
        (read_at "server.crt" _ refl, read_at "server.key" _ refl),
        (read_at "envoy.crt" _ refl, read_at "envoy.key" _ refl),
      )
