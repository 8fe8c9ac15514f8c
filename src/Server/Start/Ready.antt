-- ===== src/Server/Start/Ready.antt =====
-- What a server that has come to accept connections leaves for its clients.
use opx.Prelude.{
  ℕ, ◌≡◌, ◌≢◌, refl, sym, ap, ◌∙◌, Bool, true, false, ◌||◌, Option, none, some, [], arith, ◌==◌,
  Bool-cases, inl, inr,
}
use opx.Prelude.Bytes.{Bytes, codes, ◌=ᵇ◌}
use opx.Dict.{Dict, lookup, insert, lookup-insert_self}
use opx.Paths.{join_path, dir_path}
use opx.Paths.Ends.{is_plain, last_code, join_path-ne, join_path-last, Ends-last}
use opx.Files.{Os, Dirs, made, has_dir, state_dir, token_path}
use opx.Files.Stable.{state_dir-again, socket_path-found, token_path-found}
use opx.Files.Token.{FileMap, Pc, returned, gave, temp_path, ensure_token}
use opx.Files.Token.Alone.{ensure_token-others, ensure_token-kept}
use opx.Files.Certs.{Crypto, TlsConfig, TlsResult, configured, tls_config}
use opx.Files.Certs.Reuse.{Stored, Stored-files, set_up-Stored, tls_config-found}
use opx.Server.{Server}
use opx.Server.Start.{
  Machine, ServeCalls, Outcome, refused, serving, is_there, with_token_file, with_token_path,
  listening, listen, with_tls, prepare, with_socket_path, serve, removed,
}

abbrev pub crt : Bytes → Bytes
crt dir = join_path dir (codes "tls.crt")

abbrev pub key : Bytes → Bytes
key dir = join_path dir (codes "tls.key")

abbrev pub token : Bytes → Bytes
token dir = join_path dir (codes "token")

abbrev pub socket : Bytes → Bytes
socket dir = join_path dir (codes "socket.sock")

pub temp_path-ne :
    (path dir name : Bytes)
    → is_plain name ≡ true
    → (b'p' == last_code name) ≡ false
    → temp_path path ≢ join_path dir name
unfolding ◌=ᵇ◌ last_code
temp_path-ne path dir name plain differ e =
    let ends = Ends-last (codes ".tmp") (temp_path path) refl (path, refl) in
    let same = sym ends ∙ ap last_code e ∙ join_path-last dir name plain in ground (arith, same)

-- The state directory is found, and the directory of the socket is there.
abbrev pub Found : Os → Bytes → Dirs → Type 0
Found os dir dirs =
    (state_dir os dirs ≡ (some dir, dirs)) × (has_dir (lookup (dir_path (socket dir)) dirs) ≡ true)

-- What is on the machine of a server that listens in the state directory.
abbrev pub Left : {E : Type 0} → Os → Crypto → ℕ → Bytes → Outcome E × Machine → Type 0
Left os crypto id dir (refused e, m) = Unit {0}
Left os crypto id dir (serving s k, m) =
    Found os dir m.dirs
    × (s.sock_path ≡ socket dir)
    × (lookup (token dir) m.files ≡ some s.token)
    × Stored crypto (crt dir) (key dir) (configured k) m.files
    × (lookup (socket dir) m.sockets ≡ some id)

module _ {E : Type 0} (os : Os) (crypto : Crypto) (calls : ServeCalls) (s : Server E) (id : ℕ)
    (dir : Bytes) where
  abbrev IsLeft : Outcome E × Machine → Type 0
  IsLeft r = Left os crypto id dir r

  token_file-Left :
      (k : TlsConfig) (dirs : Dirs) (sockets : Dict ℕ) (r : Pc × FileMap)
      → Found os dir dirs
      → ((t : Bytes) → r.0 ≡ returned (gave t) → lookup (token dir) r.1 ≡ some t)
      → Stored crypto (crt dir) (key dir) (configured k) r.1
      → lookup (socket dir) sockets ≡ some id
      → IsLeft (with_token_file os crypto calls s id (socket dir) k dirs sockets r)
  unfolding with_token_file
  token_file-Left k dirs sockets (returned (gave t), files) found kept stored bound =
      (found, refl, kept t refl, stored, bound)
  token_file-Left k dirs sockets (_, files) found kept stored bound = tt

  -- Making the token leaves the certificate.
  token_path-Left :
      (k : TlsConfig) (files : FileMap) (dirs : Dirs) (sockets : Dict ℕ)
      → Found os dir dirs
      → Stored crypto (crt dir) (key dir) (configured k) files
      → lookup (socket dir) sockets ≡ some id
      → IsLeft
          (with_token_path os crypto calls s id (socket dir) k files sockets (token_path os dirs))
  unfolding with_token_path is_plain last_code ◌=ᵇ◌
  token_path-Left k files dirs sockets found stored bound =
      let files' = (ensure_token (token dir) calls.token files).1 in
      let other : (name : Bytes)
          → is_plain name ≡ true
          → (b'n' == last_code name) ≡ false
          → (b'p' == last_code name) ≡ false
          → lookup (join_path dir name) files' ≡ lookup (join_path dir name) files =
        λ name plain p q.
          ensure_token-others (token dir) (join_path dir name) calls.token files
            (join_path-ne dir dir (codes "token") name refl plain p)
            (temp_path-ne (token dir) dir name plain q) in
      rw (token_path-found os dirs dirs dir found.0) (
        token_file-Left k dirs sockets (ensure_token (token dir) calls.token files) found
          (ensure_token-kept (token dir) calls.token files)
          (Stored-files crypto (crt dir) (key dir) k files files'
            (other (codes "tls.crt") refl refl refl) (other (codes "tls.key") refl refl refl)
            stored)
          bound)

  listening-Left :
      (k : TlsConfig) (m : Machine)
      → Found os dir m.dirs
      → Stored crypto (crt dir) (key dir) (configured k) m.files
      → lookup (socket dir) m.sockets ≡ some id
      → IsLeft (listening os crypto calls s id (socket dir) k m)
  unfolding listening
  listening-Left k m found stored bound = elim (Bool-cases calls.no_chmod) [
    | inl fails ↦ rw fails tt
    | inr works ↦ rw works (token_path-Left k m.files m.dirs m.sockets found stored bound)
  ]

  listen-Left :
      (k : TlsConfig) (m : Machine)
      → Found os dir m.dirs
      → Stored crypto (crt dir) (key dir) (configured k) m.files
      → IsLeft (listen os crypto calls s id (socket dir) k m)
  unfolding listen
  listen-Left k m found stored =
      let bound : Machine = record m { sockets = insert (socket dir) id m.sockets } in
      elim (Bool-cases (
        calls.no_listen
        || is_there (lookup (socket dir) m.sockets)
        || is_there (lookup (socket dir) m.files))) [
          | inl fails ↦ rw fails tt
          | inr works ↦
              rw works
                (listening-Left k bound found stored (lookup-insert_self (socket dir) id m.sockets))
        ]

  tls-Left :
      (sockets : Dict ℕ) (dirs : Dirs) (r : TlsResult × FileMap)
      → Found os dir dirs
      → Stored crypto (crt dir) (key dir) r.0 r.1
      → IsLeft (with_tls os crypto calls s id (socket dir) sockets (r.0, dirs, r.1))
  unfolding with_tls
  tls-Left sockets dirs (configured k, files) found stored =
      listen-Left k (record { dirs = dirs; files = files; sockets = sockets }) found stored
  tls-Left sockets dirs (_, files) found stored = tt

  prepare-Left :
      (m : Machine) → Found os dir m.dirs → IsLeft (prepare os crypto calls s id (socket dir) m)
  unfolding prepare
  prepare-Left m found = go calls.no_remove
    where
      at_files :
          (m : Machine)
          → Found os dir m.dirs
          → IsLeft (
              with_tls os crypto calls s id
                (socket dir)
                m.sockets
                (tls_config crypto calls.certs os calls.times m.dirs m.files))
      at_files m found =
          rw (tls_config-found crypto calls.certs os calls.times m.dirs m.files dir found.0) (
            tls-Left m.sockets m.dirs _ found
              (set_up-Stored crypto (crt dir) (key dir) calls.certs calls.times m.files))

      go :
          (no_remove : Bool)
          → let m' = removed no_remove (socket dir) m in
            IsLeft (
              with_tls os crypto calls s id
                (socket dir)
                m'.sockets
                (tls_config crypto calls.certs os calls.times m'.dirs m'.files))
      go true = at_files m found
      go false = at_files _ found

  -- A server that comes to accept connections at the default socket leaves the machine as `Left` says,
  -- where the directory of the socket is there once the state directory is found.
  pub serve-Left :
      (m : Machine) (dirs : Dirs)
      → s.sock_path ≡ []
      → state_dir os m.dirs ≡ (some dir, dirs)
      → has_dir (lookup (dir_path (socket dir)) dirs) ≡ true
      → IsLeft (serve os crypto calls s id m)
  unfolding serve with_socket_path made has_dir ◌=ᵇ◌
  serve-Left m dirs default found parent =
      rw (default, socket_path-found os m.dirs dirs dir found)
        (at_socket (lookup (dir_path (socket dir)) dirs) parent refl)
    where
      again : state_dir os dirs ≡ (some dir, dirs)
      again = state_dir-again os m.dirs dirs dir found

      at_socket :
          (o : Option ℕ)
          → has_dir o ≡ true
          → lookup (dir_path (socket dir)) dirs ≡ o
          → IsLeft (with_socket_path os crypto calls s id m (some (socket dir), dirs))
      at_socket none p e = absurd (ground arith)
      at_socket (some mode) p e = elim (Bool-cases calls.no_mkdir) [
        | inl fails ↦ rw fails tt
        | inr works ↦ rw (works, e) (prepare-Left (record m { dirs = dirs }) (again, rw e p))
      ]
