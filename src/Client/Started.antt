-- ===== src/Client/Started.antt =====
-- A new client and the daemon that has started: internal/client/client.go, with the certificate of
-- internal/util/tls.go, on the machine that `Serve` leaves.
use mathlib.Core.Path.{subst}
use opx.Prelude.{ℕ, ◌≡◌, ◌≢◌, refl, true, Option, none, some, []}
use opx.Prelude.Bytes.{Bytes, codes}
use opx.Dict.{lookup, delete, lookup-insert_self}
use opx.Paths.{dir_path}
use opx.Files.{Os, Dirs, has_dir, state_dir, socket_path, token_path}
use opx.Files.Stable.{socket_path-found, token_path-found}
use opx.Files.Token.{FileMap, Luck}
use opx.Files.Certs.{
  Crypto, Calls, Times, TlsConfig, is_current, client_tls_config, client_loaded, is_configured,
}
use opx.Files.Certs.Reuse.{client_tls_config-found}
use opx.Daemon.{Daemon}
use opx.Server.{Server}
use opx.Server.Start.{Machine, ServeCalls, Outcome, serving, serve}
use opx.Server.Start.Ready.{socket, Left, serve-Left}
use opx.Server.Start.Again.{reading_works, serve-again}
use opx.Client.{Client, Net, new_client, with_socket, with_token, or_empty, ensure_daemon}
use opx.Client.Wire.{Decoder, Moment, on_server, client_ready}

-- `New`, with the certificate that `ClientTLSConfig` finds.
unfoldable pub new_tls_client : Os → Crypto → FileMap → Dirs → Option Client × Dirs
unfolding new_client client_tls_config is_configured socket_path token_path
new_tls_client os crypto files dirs =
    let after = (token_path os (socket_path os dirs).1).1 in
    new_client os files (is_configured (client_tls_config crypto os after files).0) dirs

module _ {E : Type 0} (os : Os) (crypto : Crypto) (calls : ServeCalls) (s : Server E) (id : ℕ)
    (dir : Bytes) where
  -- The client that is made on what `Left` describes.
  made_client :
      (s' : Server E) (k : TlsConfig) (m : Machine)
      → Left os crypto id dir (Outcome.serving s' k, m)
      → new_tls_client os crypto m.files m.dirs ≡ (
        some (record { base = codes "https://unix"; token = s'.token; sock = s'.sock_path }),
        m.dirs,
      )
  unfolding new_tls_client new_client with_socket with_token is_configured or_empty client_loaded
  made_client s' k m (found, sock, tok, stored, bound) =
      rw
        (
          socket_path-found os m.dirs m.dirs dir found.0,
          token_path-found os m.dirs m.dirs dir found.0,
          client_tls_config-found crypto os k m.dirs m.files dir found.0 stored,
          tok,
          sock,
        )
        refl

  -- A server that comes to accept connections at the default socket, in a state directory that is found and whose
  -- directory of the socket is there, and with a token that is not empty, is ready for the clients: a client that is
  -- made on the machine as it then is has the server's token and socket, at which this server listens, and finds
  -- the server ready at once.
  pub served-client_ready :
      (m m' : Machine) (dirs : Dirs) (s' : Server E) (k : TlsConfig)
      → s.sock_path ≡ []
      → state_dir os m.dirs ≡ (some dir, dirs)
      → has_dir (lookup (dir_path (socket dir)) dirs) ≡ true
      → serve os crypto calls s id m ≡ (serving s' k, m')
      → s'.token ≢ []
      → (json : Decoder) (t : Moment) (outside : Net (Daemon E)) (d : Daemon E)
      → let c : Client = record {
        base = codes "https://unix";
        token = s'.token;
        sock = s'.sock_path;
      } in
        (new_tls_client os crypto m'.files m'.dirs ≡ (some c, m'.dirs))
        × (lookup c.sock m'.sockets ≡ some id)
        × (ensure_daemon (on_server s' json t outside) c d ≡ (some none, d))
  served-client_ready m m' dirs s' k default found parent served full json t outside d =
      let left : Left os crypto id dir (Outcome.serving s' k, m') =
        subst (Left os crypto id dir) served
          (serve-Left os crypto calls s id dir m dirs default found parent) in
      let c : Client = record {
        base = codes "https://unix";
        token = s'.token;
        sock = s'.sock_path;
      } in
      let (again, sock, tok, stored, bound) = left in
      (made_client s' k m' left, rw sock bound, client_ready s' json t outside c refl refl full d)

  -- After a server has come to accept connections at the default socket, in a state directory that is found
  -- and whose directory of the socket is there, and with a token that is not empty, another server that is
  -- started on the machine as it then is comes to accept connections with the same socket, token and
  -- certificate, and a client with the socket and the token of the first finds the second ready at once:
  -- where the calls that `Serve` makes in any case work, the token can be read, and more than a day of the
  -- certificate is left, whichever calls for a new token or a new certificate would fail.
  pub restarted-client_ready :
      (m m' : Machine) (dirs : Dirs) (s' : Server E) (k : TlsConfig)
      → s.sock_path ≡ []
      → state_dir os m.dirs ≡ (some dir, dirs)
      → has_dir (lookup (dir_path (socket dir)) dirs) ≡ true
      → serve os crypto calls s id m ≡ (serving s' k, m')
      → s'.token ≢ []
      → (certs : Calls) (times : Times) (luck : Luck) (next : Server E) (other : ℕ)
      → next.sock_path ≡ []
      → is_current times.checked (some k.certificate) ≡ true
      → (json : Decoder) (t : Moment) (outside : Net (Daemon E)) (d : Daemon E)
      → let c : Client = record {
        base = codes "https://unix";
        token = s'.token;
        sock = s'.sock_path;
      } in
        let next' : Server E = record next { sock_path = s'.sock_path; token = s'.token } in
        let (r, m'') = serve os crypto (reading_works certs times luck) next other m' in
        (r ≡ serving next' k)
        × (lookup c.sock m''.sockets ≡ some other)
        × (ensure_daemon (on_server next' json t outside) c d ≡ (some none, d))
  restarted-client_ready m m' dirs s' k default found parent served full certs times luck next other
        default' current json t outside d =
      let c : Client = record {
        base = codes "https://unix";
        token = s'.token;
        sock = s'.sock_path;
      } in
      let next' : Server E = record next { sock_path = s'.sock_path; token = s'.token } in
      let again =
        serve-again os crypto calls s id dir m m' dirs s' k default found parent served certs times
          luck next other default' current in
      let free = delete s'.sock_path m'.sockets in
      rw again (
        refl,
        lookup-insert_self s'.sock_path other free,
        client_ready next' json t outside c refl refl full d,
      )
