-- ===== src/Examples/Starts.antt =====
-- The theorems on the start of the daemon at concrete inputs: internal/util/tls.go, `Serve` of
-- internal/server/server.go, and what `opx` then does.
use opx.Prelude.{ℕ, ◌≡◌, refl, true, false, none, some, List, [], ◌∷◌, ◌++◌, map, arith}
use opx.Prelude.Int.{pos, pos_part, int_laws, ◌+ℤ◌}
use opx.Prelude.Bytes.{Bytes, codes, ◌=ᵇ◌}
use opx.Strings.{trim_space, has_prefix}
use opx.Dict.{lookup, insert, delete}
use opx.Paths.{join_path, dir_path}
use opx.Daemon.{Daemon}
use opx.Server.{Server, read_one_with_flags}
use opx.Server.Start.{Machine, ServeCalls, serving, serve, shut_down}
use opx.Server.Start.Ready.{socket, token, crt}
use opx.Server.Start.Sockets.{shut_down-removes}
use opx.Server.Start.Again.{reading_works}
use opx.Server.Start.Works.{Serving, no_failure, serve-Serving}
use opx.Files.Token.{Luck, temp_path}
use opx.Files.{state_dir, has_dir}
use opx.Files.Token.{ensure_token}
use opx.Files.Token.Race.{draws}
use opx.Files.Certs.{
  Certificate, Crypto, Calls, Times, TlsConfig, configured, tls_config, template, is_current,
}
use opx.Files.Certs.Renewal.{Signs, all_work}
use opx.Client.{Client, ensure_daemon}
use opx.Client.Wire.{on_server}
use opx.Client.Started.{new_tls_client, served-client_ready, restarted-client_ready}
use opx.Cli.{exited, scan_args}
use opx.Cli.Commands.{Shell, finished}
use opx.Cli.Runs.{EndsRead}
use opx.Cli.Machine.{opx_tls_main, opx_tls_main-first_run, served_read}
use opx.Examples.Servers.{server, clock, daemon}
use opx.Examples.Clients.{os, dirs, outside, decoder, codec, moment}

-- Certificates that consist of the time after which they are not valid.
abbrev first_code : Bytes → ℕ
first_code [] = 0
first_code (n ∷ ns) = n

abbrev crypto : Crypto
crypto = record {
  create_certificate = λ t key. some (pos_part t.not_after ∷ []);
  marshal_private_key = λ key. key;
  pem_encode = λ kind b. b;
  x509_key_pair =
      λ cert key. some (record { certificate = cert; leaf = some (pos (first_code cert)) });
  parse_certificate = λ der. none;
}

crypto-Signs : Signs crypto
crypto-Signs t key =
    (pos (pos_part t.not_after), some (pos (pos_part t.not_after)), refl, refl, grind int_laws)

abbrev times : Times
times = record { checked = pos 5; begun = pos 6; dated = pos 7 }

abbrev dir : Bytes
dir = codes "/h/.local/share/op-authd"

found : state_dir os [] ≡ (some dir, dirs)
unfolding state_dir lookup insert join_path ◌=ᵇ◌
found = refl

abbrev certificate : Certificate
certificate = record { certificate = 31536000000000007 ∷ []; leaf = some (pos 31536000000000007) }

abbrev config : TlsConfig
config = record {
  certificate = certificate;
  server_name = codes "op-authd-local";
  insecure_skip_verify = false;
}

abbrev files : List (Bytes × Bytes)
files =
    (codes "/h/.local/share/op-authd/tls.crt", 31536000000000007 ∷ [])
    ∷ (codes "/h/.local/share/op-authd/tls.key", codes "k")
    ∷ []

made : tls_config crypto (all_work (codes "k")) os times [] [] ≡ (configured config, dirs, files)
unfolding tls_config state_dir lookup insert join_path template ◌+ℤ◌ ◌=ᵇ◌
made = refl

-- A later run in which every call would fail.
abbrev no_calls : Calls
no_calls = record {
  key = none;
  no_mkdir = true;
  no_cert_open = true;
  cert_short = some 0;
  no_key_open = true;
  key_short = some 0;
}

abbrev later : Times
later = record { checked = pos 1000000000000000; begun = pos 0; dated = pos 0 }

current : is_current (pos 1000000000000000) (some certificate) ≡ true
unfolding is_current ◌+ℤ◌
current = refl

abbrev calls : ServeCalls
calls = record {
  no_mkdir = false;
  no_remove = false;
  no_listen = false;
  no_chmod = false;
  certs = all_work (codes "k");
  times = times;
  token = draws (1 ∷ 2 ∷ []);
}

abbrev unserved : Server ℕ
unserved = record server { sock_path = [] }

-- The machine on which another daemon listens, and what is left of it.
abbrev before : Machine
before = record {
  dirs = [];
  files = [];
  sockets = (codes "/h/.local/share/op-authd/socket.sock", 1) ∷ [];
}

abbrev served : Server ℕ
served = record server {
  sock_path = codes "/h/.local/share/op-authd/socket.sock";
  token = codes "0102";
}

abbrev after : Machine
after = record {
  dirs = dirs;
  files = files ++ (codes "/h/.local/share/op-authd/token", codes "0102") ∷ [];
  sockets = (codes "/h/.local/share/op-authd/socket.sock", 2) ∷ [];
}

serves : serve os crypto calls unserved 2 before ≡ (serving served config, after)
unfolding serve state_dir lookup insert delete join_path dir_path template ensure_token ◌+ℤ◌ ◌=ᵇ◌
serves = refl

parent : has_dir (lookup (dir_path (socket dir)) dirs) ≡ true
unfolding has_dir lookup dir_path join_path ◌=ᵇ◌
parent = refl

no_temp : lookup (temp_path (token dir)) before.files ≡ none
unfolding lookup
no_temp = refl

serve-Serving_example :
    Serving (pos 5) (serve os crypto (no_failure (codes "k") times (1 ∷ 2 ∷ [])) unserved 2 before)
serve-Serving_example =
    serve-Serving os crypto crypto-Signs (codes "k") (1 ∷ 2 ∷ []) times (omega arith) unserved 2 dir
      before dirs refl found parent no_temp

other : lookup served.sock_path before.sockets ≡ some 1
unfolding lookup ◌=ᵇ◌
other = refl

shut_down-removes_example :
    (lookup served.sock_path after.sockets ≡ some 2)
    × (lookup served.sock_path (shut_down false served.sock_path after).sockets ≡ none)
shut_down-removes_example =
    shut_down-removes os crypto calls unserved 2 before after served config 1 serves other

served-client_ready_example :
    let c : Client = record {
      base = codes "https://unix";
      token = served.token;
      sock = served.sock_path;
    } in
    (new_tls_client os crypto after.files after.dirs ≡ (some c, after.dirs))
    × (lookup c.sock after.sockets ≡ some 2)
    × (ensure_daemon (on_server served decoder moment outside) c daemon ≡ (some none, daemon))
served-client_ready_example =
    served-client_ready os crypto calls unserved 2 dir before after dirs served config refl found
      parent serves (ground arith) decoder moment outside daemon

-- Another server, which cannot write anything.
abbrev next : Server ℕ
next = record unserved { token = codes "old" }

abbrev luck : Luck
luck = record (draws (7 ∷ [])) { no_open = true }

restarted-client_ready_example :
    let c : Client = record {
      base = codes "https://unix";
      token = served.token;
      sock = served.sock_path;
    } in
    let next' : Server ℕ = record next { sock_path = served.sock_path; token = served.token } in
    let (r, m'') = serve os crypto (reading_works no_calls later luck) next 3 after in
    (r ≡ serving next' config)
    × (lookup c.sock m''.sockets ≡ some 3)
    × (ensure_daemon (on_server next' decoder moment outside) c daemon ≡ (some none, daemon))
restarted-client_ready_example =
    restarted-client_ready os crypto calls unserved 2 dir before after dirs served config refl found
      parent serves (ground arith) no_calls later luck next 3 refl current decoder moment outside
      daemon

abbrev shell : Shell (Daemon ℕ)
shell = record {
  parse_run = λ flags. none;
  parse_vault = λ flags. none;
  environ = [];
  run_program = λ args env n. (finished 0, n);
}

not_blank : (trim_space (codes " op://V/I/f") =ᵇ []) ≡ false
unfolding trim_space ◌=ᵇ◌
not_blank = refl

served_read_example :
    let accounts = map (λ a. codes "--account=" ++ a) (codes "work" ∷ []) in
    let (r, d') =
      read_one_with_flags served none (trim_space (codes " op://V/I/f")) accounts clock daemon in
    let (ending, d'') =
      opx_tls_main
        (on_server served decoder moment outside)
        shell
        os
        crypto
        after.files
        after.dirs
        (accounts ++ codes "read" ∷ codes " op://V/I/f" ∷ [])
        daemon in
    EndsRead r ending × (d'' ≡ d')
served_read_example =
    served_read decoder moment outside shell os crypto calls unserved 2 dir before after dirs served
      config (codes "work" ∷ []) (codes " op://V/I/f") daemon refl found parent serves
      (ground arith) (codec _ _) (ground arith, tt) not_blank

no_certificate : lookup {V = Bytes} (crt dir) [] ≡ none
unfolding lookup
no_certificate = refl

a_command :
    (scan_args (codes "read" ∷ codes "r" ∷ []) []).command ≡ some (codes "read", codes "r" ∷ [])
unfolding scan_args has_prefix ◌=ᵇ◌
a_command = refl

opx_tls_main-first_run_example :
    opx_tls_main outside shell os crypto [] [] (codes "read" ∷ codes "r" ∷ []) daemon
    ≡ (some (exited 1 []), daemon)
opx_tls_main-first_run_example =
    opx_tls_main-first_run outside shell os crypto [] [] dirs dir (codes "read")
      (codes "read" ∷ codes "r" ∷ []) (codes "r" ∷ []) daemon found no_certificate a_command
