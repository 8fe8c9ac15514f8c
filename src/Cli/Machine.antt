-- ===== src/Cli/Machine.antt =====
-- `opx` (cmd/opx/main.go) on a machine with its files, of which the certificate of the daemon is one.
use opx.Prelude.{ℕ, ◌≡◌, ◌≢◌, refl, true, false, Option, none, some, List, [], ◌∷◌, ◌++◌, map, All}
use opx.Prelude.Bytes.{Bytes, codes, ◌=ᵇ◌}
use opx.Strings.{trim_space}
use opx.Dict.{lookup}
use opx.Paths.{dir_path}
use opx.Daemon.{Daemon}
use opx.Server.{Server, read_one_with_flags}
use opx.Server.Start.{Machine, ServeCalls, serving, serve}
use opx.Server.Start.Ready.{crt, socket}
use opx.Files.{Os, Dirs, has_dir, state_dir, socket_path, token_path}
use opx.Files.Stable.{state_dir-again, socket_path-found, token_path-found}
use opx.Files.Token.{FileMap}
use opx.Files.Certs.{Crypto, TlsConfig, client_tls_config, is_configured}
use opx.Files.Certs.Reuse.{client_tls_config_absent}
use opx.Client.{Net, new_client, with_socket, with_token}
use opx.Client.Wire.{Decoder, Moment, IsCoded, on_server}
use opx.Client.Started.{new_tls_client, served-client_ready}
use opx.Cli.{Ending, exited, scan_args}
use opx.Cli.Commands.{Shell, with_command, with_client, opx_main}
use opx.Cli.Runs.{EndsRead, read_ending-EndsRead, opx_main-read}

-- `main`, whose client takes the certificate from the files.
unfoldable pub opx_tls_main :
    {N : Type 0}
    → Net N
    → Shell N
    → Os
    → Crypto
    → FileMap
    → Dirs
    → List Bytes
    → N
    → Option Ending × N
unfolding opx_main client_tls_config is_configured socket_path token_path
opx_tls_main net shell os crypto files dirs args n =
    let after = (token_path os (socket_path os dirs).1).1 in
    opx_main net shell os files (is_configured (client_tls_config crypto os after files).0) dirs
      args n

-- While there is no certificate of the daemon, every command of `opx` ends with the code 1, and nothing
-- is asked of the daemon and no program is started, so that `opx` never starts the first daemon.
pub opx_tls_main-first_run :
    {N : Type 0} (net : Net N) (shell : Shell N) (os : Os) (crypto : Crypto) (files : FileMap)
    (dirs dirs' : Dirs) (dir cmd : Bytes) (args rest : List Bytes) (n : N)
    → state_dir os dirs ≡ (some dir, dirs')
    → lookup (crt dir) files ≡ none
    → (scan_args args []).command ≡ some (cmd, rest)
    → opx_tls_main net shell os crypto files dirs args n ≡ (some (exited 1 []), n)
unfolding opx_tls_main opx_main new_client with_socket with_token with_command with_client
    is_configured
opx_tls_main-first_run net shell os crypto files dirs dirs' dir cmd args rest n found absent
      command =
    let again = state_dir-again os dirs dirs' dir found in
    rw
      (
        socket_path-found os dirs dirs' dir found,
        token_path-found os dirs' dirs' dir again,
        client_tls_config_absent crypto os dirs' files dir again absent,
        command,
      )
      refl

module _ {E : Type 0} (json : Decoder) (t : Moment) (outside : Net (Daemon E))
    (shell : Shell (Daemon E)) (os : Os) (crypto : Crypto) (calls : ServeCalls) (s : Server E)
    (id : ℕ) (dir : Bytes) where
  -- On the machine that a server leaves which comes to accept connections at the default
  -- socket, in a state directory that is found and whose directory of the socket is there, with
  -- a token that is not empty: `opx` with accounts, the subcommand `read` and one reference
  -- that is not blank prints the value that the server's read of the trimmed reference gives,
  -- with the accounts as the flags, and a newline behind it where it does not end in one, and
  -- ends with the code 0; where that read fails, it prints nothing and ends with the code 1.
  -- The daemon is as after the read. JSON is taken to give back the request and the response,
  -- as it does for texts in UTF-8.
  pub served_read :
      (m m' : Machine) (dirs : Dirs) (s' : Server E) (k : TlsConfig) (names : List Bytes)
      (ref : Bytes) (d : Daemon E)
      → s.sock_path ≡ []
      → state_dir os m.dirs ≡ (some dir, dirs)
      → has_dir (lookup (dir_path (socket dir)) dirs) ≡ true
      → serve os crypto calls s id m ≡ (serving s' k, m')
      → s'.token ≢ []
      → IsCoded json outside
          (record { ref = ref; flags = map (λ a. codes "--account=" ++ a) names })
          (read_one_with_flags s' t.peer
            (trim_space ref)
            (map (λ a. codes "--account=" ++ a) names)
            t.clock
            d).0
      → All (λ a. a ≢ []) names
      → (trim_space ref =ᵇ []) ≡ false
      → let accounts = map (λ a. codes "--account=" ++ a) names in
        let (r, d') = read_one_with_flags s' t.peer (trim_space ref) accounts t.clock d in
        let (ending, d'') =
          opx_tls_main
            (on_server s' json t outside)
            shell
            os
            crypto
            m'.files
            m'.dirs
            (accounts ++ codes "read" ∷ ref ∷ [])
            d in
        EndsRead r ending × (d'' ≡ d')
  unfolding opx_tls_main new_tls_client
  served_read m m' dirs s' k names ref d default found parent served full codec named h =
      let (made, bound, ready) =
        served-client_ready os crypto calls s id dir m m' dirs s' k default found parent served full
          json t outside d in
      let whole =
        opx_main-read s' json t outside shell os m'.files _ m'.dirs m'.dirs _ names ref d codec made
          refl full named h in
      let accounts = map (λ a. codes "--account=" ++ a) names in
      rw whole (
        read_ending-EndsRead (read_one_with_flags s' t.peer (trim_space ref) accounts t.clock d).0,
        refl,
      )
