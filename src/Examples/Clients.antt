-- ===== src/Examples/Clients.antt =====
-- The theorems on internal/client/client.go at concrete inputs.
use opx.Prelude.{
  ℕ, ◌+◌, ◌<◌, ◌≡◌, refl, true, Option, none, some, [], ◌∷◌, arith, ltb, if◌then◌else◌,
}
use opx.Prelude.Int.{pos}
use opx.Prelude.Bytes.{Bytes, codes, ◌=ᵇ◌}
use opx.Dict.{lookup}
use opx.Protocol.{ReadRequest, ReadResponse}
use opx.Daemon.{Daemon}
use opx.Server.Handlers.{Body, text, one_read}
use opx.Files.{Os, Dirs}
use opx.Client.{
  Client, ClientError, Payload, Net, read_body, unreachable, ping, patience, daemon_program,
  ensure_daemon,
}
use opx.Client.Ready.{IsClock, rounds, ensure_daemon_total, ensure_daemon-answered}
use opx.Client.Wire.{Decoder, Moment, IsCoded}
use opx.Backend.{Result}
use opx.Examples.Servers.{clock}

-- A machine on which nothing answers before 0.3 s; the time is the state.
abbrev late : Net ℕ
late = record {
  exchange =
      λ r n. (if ltb n 300000000 then none else some (record { code = 200; body = text [] }), n);
  decode_read = λ b. none;
  decode_reads = λ b. none;
  decode_resolve = λ b. none;
  now = λ n. n;
  sleep = λ t n. n + t;
  getenv = λ v. [];
  look_path = some (codes "/bin/opx-authd");
  start = λ exe n. (true, n);
}

late-IsClock : IsClock late
late-IsClock = record { onward = λ r n. omega arith; passes = λ t n. omega arith }

abbrev client : Client
client = record { base = codes "https://unix"; token = codes "t"; sock = codes "/s" }

ensure_daemon_total_example : (a : Option ClientError) × ((ensure_daemon late client 0).0 ≡ some a)
ensure_daemon_total_example = ensure_daemon_total late late-IsClock client 0

first_ping : ping late client 0 ≡ (some unreachable, 0)
unfolding ping
first_ping = refl

third_ping : (ping late client (rounds late late-IsClock client 2 0)).0 ≡ none
unfolding ping rounds
third_ping = refl

in_time : late.now (rounds late late-IsClock client 2 0) < late.now 0 + patience
unfolding ping rounds
in_time = omega arith

program : daemon_program late ≡ some (codes "/bin/opx-authd")
unfolding daemon_program ◌=ᵇ◌
program = refl

ensure_daemon-answered_example : (ensure_daemon late client 0).0 ≡ some none
unfolding ◌=ᵇ◌
ensure_daemon-answered_example =
    ensure_daemon-answered late late-IsClock client 0 0 0 unreachable (codes "/bin/opx-authd") 2
      first_ping refl program refl in_time third_ping

abbrev pub to_response : Body → Option ReadResponse
to_response (one_read r) = some r
to_response _ = none

abbrev pub as_read : Payload → Option ReadRequest
as_read (read_body r) = some r
as_read _ = none

nothing : (path : Bytes) → lookup {V = Bytes} path [] ≡ none
unfolding lookup
nothing path = refl

abbrev pub os : Os
os = record {
  getenv = λ v. [];
  user_home_dir = codes "/h";
  mkdir_works = λ d. true;
  chmod_works = λ d. true;
}

abbrev pub token_file : Bytes
token_file = codes "/h/.local/share/op-authd/token"

abbrev pub socket_file : Bytes
socket_file = codes "/h/.local/share/op-authd/socket.sock"

abbrev pub dirs : Dirs
dirs = (codes "/h/.local/share/op-authd", 448) ∷ []

-- A machine with the daemon of the examples, whose clock stands still.
abbrev pub outside : Net (Daemon ℕ)
outside = record {
  exchange = λ r d. (none, d);
  decode_read = to_response;
  decode_reads = λ b. none;
  decode_resolve = λ b. none;
  now = λ d. 0;
  sleep = λ t d. d;
  getenv = λ v. [];
  look_path = some (codes "/bin/opx-authd");
  start = λ exe d. (true, d);
}

abbrev pub decoder : Decoder
decoder = record { to_read = as_read; to_reads = λ p. none; to_resolve = λ p. none }

pub codec : (q : ReadRequest) (r : Result ReadResponse) → IsCoded decoder outside q r
codec q r = record { request = refl; response = λ v e. refl }

abbrev pub moment : Moment
moment = record { peer = none; now = pos 1; clock = clock; clocks = λ n. clock; describe = λ e. [] }
