-- ===== src/Server/Start/Again.antt =====
-- A daemon that is started again: `Serve` of internal/server/server.go after another `Serve`.
use mathlib.Core.Path.{subst}
use opx.Prelude.{ℕ, ◌≡◌, refl, ◌∙◌, true, false, ◌==◌, Option, none, some, [], arith}
use opx.Prelude.Bytes.{Bytes, codes, ◌=ᵇ◌, =ᵇ_ne, =ᵇ_refl}
use opx.Dict.{Dict, lookup, insert, delete, lookup-delete}
use opx.Paths.{join_path, dir_path}
use opx.Paths.Ends.{is_plain, last_code, join_path-ne}
use opx.Files.{Os, Dirs, made, has_dir, state_dir}
use opx.Files.Stable.{socket_path-found, token_path-found}
use opx.Files.Token.{Luck}
use opx.Files.Token.Alone.{found_again}
use opx.Files.Certs.{Crypto, Calls, Times, TlsConfig, configured, is_current}
use opx.Files.Certs.Reuse.{Stored, Stored-files, set_up-again, tls_config-found}
use opx.Server.{Server}
use opx.Server.Start.{
  Machine, ServeCalls, Outcome, serving, is_there, or_blank, removed, with_token_file,
  with_token_path, listening, listen, with_tls, prepare, with_socket_path, serve,
}
use opx.Server.Start.Ready.{crt, key, token, socket, Found, Left, serve-Left}

-- The calls that a server makes in any case work, and the token can be read.
abbrev pub reading_works : Calls → Times → Luck → ServeCalls
reading_works certs times luck = record {
  no_mkdir = false;
  no_remove = false;
  no_listen = false;
  no_chmod = false;
  certs = certs;
  times = times;
  token = record luck { unreadable = false };
}

module _ {E : Type 0} (os : Os) (crypto : Crypto) (dir : Bytes) (certs : Calls) (times : Times)
    (luck : Luck) (s : Server E) (id : ℕ) (t : Bytes) (k : TlsConfig) where
  abbrev calls : ServeCalls
  calls = reading_works certs times luck

  -- The server with the token and the certificate that are there.
  abbrev listens : Machine → Outcome E × Machine
  listens m = (
    serving (record s { sock_path = socket dir; token = t }) k,
    record m { sockets = insert (socket dir) id m.sockets },
  )

  listen_again :
      (m : Machine)
      → Found os dir m.dirs
      → lookup (token dir) m.files ≡ some t
      → lookup (socket dir) m.sockets ≡ none
      → lookup (socket dir) m.files ≡ none
      → listen os crypto calls s id (socket dir) k m ≡ listens m
  unfolding listen listening with_token_path with_token_file or_blank is_there
  listen_again m found tok free no_file =
      let same = found_again (token dir) calls.token m.files t tok refl in
      rw (free, no_file, token_path-found os m.dirs m.dirs dir found.0, same) refl

  gone : {V : Type 0} (d : Dict V) → lookup (socket dir) (delete (socket dir) d) ≡ none
  gone d = rw (lookup-delete (socket dir) (socket dir) d, =ᵇ_refl (socket dir)) refl

  prepare_again :
      (m : Machine)
      → Found os dir m.dirs
      → lookup (token dir) m.files ≡ some t
      → Stored crypto (crt dir) (key dir) (configured k) m.files
      → is_current times.checked (some k.certificate) ≡ true
      → prepare os crypto calls s id (socket dir) m ≡ listens (removed false (socket dir) m)
  unfolding prepare removed with_tls is_plain last_code ◌=ᵇ◌
  prepare_again m found tok stored current =
      let m' : Machine = removed false (socket dir) m in
      let kept : (name : Bytes)
          → is_plain name ≡ true
          → (b'k' == last_code name) ≡ false
          → lookup (join_path dir name) m'.files ≡ lookup (join_path dir name) m.files =
        λ name plain differ.
          lookup-delete (socket dir) (join_path dir name) m.files
          ∙ rw
              (=ᵇ_ne (socket dir) (join_path dir name)
                (join_path-ne dir dir (codes "socket.sock") name refl plain differ))
              refl in
      let certificate =
        Stored-files crypto (crt dir) (key dir) k m.files m'.files
          (kept (codes "tls.crt") refl refl) (kept (codes "tls.key") refl refl) stored in
      rw
        (
          tls_config-found crypto certs os times m.dirs m'.files dir found.0,
          set_up-again crypto (crt dir) (key dir) certs times k m'.files certificate current,
        )
        (listen_again m' found (kept (codes "token") refl refl ∙ tok) (gone m.sockets)
          (gone m.files))

  serve_again :
      (m : Machine)
      → s.sock_path ≡ []
      → Found os dir m.dirs
      → lookup (token dir) m.files ≡ some t
      → Stored crypto (crt dir) (key dir) (configured k) m.files
      → is_current times.checked (some k.certificate) ≡ true
      → serve os crypto calls s id m ≡ listens (removed false (socket dir) m)
  unfolding serve with_socket_path made has_dir ◌=ᵇ◌
  serve_again m default found tok stored current =
      rw (default, socket_path-found os m.dirs m.dirs dir found.0)
        (at_socket (lookup (dir_path (socket dir)) m.dirs) found.1 refl)
    where
      at_socket :
          (o : Option ℕ)
          → has_dir o ≡ true
          → lookup (dir_path (socket dir)) m.dirs ≡ o
          → with_socket_path os crypto calls s id m (some (socket dir), m.dirs)
            ≡ listens (removed false (socket dir) m)
      at_socket none p e = absurd (ground arith)
      at_socket (some mode) p e = rw e (prepare_again m found tok stored current)

module _ {E : Type 0} (os : Os) (crypto : Crypto) (calls : ServeCalls) (s : Server E) (id : ℕ)
    (dir : Bytes) (m m' : Machine) (dirs : Dirs) (s' : Server E) (k : TlsConfig) where
  -- A server that is started again on what the first one has left takes the same socket, with the same token and
  -- the same certificate.
  pub serve-again :
      s.sock_path ≡ []
      → state_dir os m.dirs ≡ (some dir, dirs)
      → has_dir (lookup (dir_path (socket dir)) dirs) ≡ true
      → serve os crypto calls s id m ≡ (serving s' k, m')
      → (certs : Calls) (times : Times) (luck : Luck) (next : Server E) (other : ℕ)
      → next.sock_path ≡ []
      → is_current times.checked (some k.certificate) ≡ true
      → serve os crypto (reading_works certs times luck) next other m' ≡ (
        serving (record next { sock_path = s'.sock_path; token = s'.token }) k,
        record m' {
          files = delete s'.sock_path m'.files;
          sockets = insert s'.sock_path other (delete s'.sock_path m'.sockets);
        },
      )
  unfolding removed
  serve-again default found parent served certs times luck next other default' current =
      let (there, sock, tok, stored, bound) : Left os crypto id dir (Outcome.serving s' k, m') =
        subst (Left os crypto id dir) served
          (serve-Left os crypto calls s id dir m dirs default found parent) in
      rw sock (
        serve_again os crypto dir certs times luck next other s'.token k m' default' there tok
          stored current)
