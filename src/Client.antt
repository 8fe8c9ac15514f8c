-- ===== src/Client.antt =====
-- internal/client/client.go: the client of the daemon.
--
-- What is beyond the program is the record `Net`: the exchange of a request for a response, the
-- JSON decoder, the clock, and the start of another program. `N` is the state of all that is
-- outside the client. The content of a response is what was encoded into it.
pub mod Ready
pub mod Wire
pub mod Token
pub mod Started
use opx.Prelude.{
  ℕ, zero, suc, ◌+◌, ◌*◌, ◌≤◌, ◌≡◌, Bool, true, false, not, Option, none, some, List, [], ◌∷◌, ◌++◌,
  ltb, leb, ◌==◌, if◌then◌else◌,
}
use opx.Prelude.Bytes.{Bytes, codes, ◌=ᵇ◌}
use opx.Dict.{Dict, lookup}
use opx.Protocol.{ReadRequest, ReadsRequest, ReadResponse, ResolveRequest}
use opx.Server.Handlers.{Body, Response}
use opx.Files.{Os, Dirs, socket_path, token_path}
use opx.Files.Token.{FileMap}

pub data Payload : Type 0 where
  empty : Payload
  read_body : ReadRequest → Payload
  reads_body : ReadsRequest → Payload
  resolve_body : ResolveRequest → Payload

-- A header that is not set is empty.
pub record Request : Type 0 where
  pub method : Bytes
  pub path : Bytes
  pub content_type : Bytes
  pub token : Bytes
  pub payload : Payload

pub data ClientError : Type 0 where
  unreachable unauthorized bad_response : ClientError
  server_error : ℕ → Body → ClientError
  bad_status : ℕ → ClientError
  autostart_disabled no_daemon_program launch_failed not_ready : ClientError

pub data Attempt {ℓ} (A : Type ℓ) : Type ℓ where
  failed : ClientError → Attempt A
  made : A → Attempt A

pub record Net (N : Type 0) : Type 0 where
  pub exchange : Request → N → Option Response × N
  pub decode_read : Body → Option ReadResponse
  pub decode_reads : Body → Option (Dict ReadResponse)
  pub decode_resolve : Body → Option (Dict Bytes)
  pub now : N → ℕ  -- nanoseconds
  pub sleep : ℕ → N → N
  pub getenv : Bytes → Bytes
  pub look_path : Option Bytes
  pub start : Bytes → N → Bool × N

-- The fields that a request depends on. The connections go to the socket, over TLS.
pub record Client : Type 0 where
  pub base : Bytes
  pub token : Bytes
  pub sock : Bytes

unfoldable pub or_empty : Option Bytes → Bytes
or_empty none = []
or_empty (some t) = t

unfoldable pub with_token : Bytes → FileMap → Bool → Option Bytes × Dirs → Option Client × Dirs
unfolding or_empty
with_token sock files tls_works (none, dirs) = (none, dirs)
with_token sock files tls_works (some path, dirs) =
    if tls_works
    then (
      some (record {
        base = codes "https://unix";
        token = or_empty (lookup path files);
        sock = sock;
      }),
      dirs,
    )
    else (none, dirs)

unfoldable pub with_socket : Os → FileMap → Bool → Option Bytes × Dirs → Option Client × Dirs
unfolding with_token token_path
with_socket os files tls_works (none, dirs) = (none, dirs)
with_socket os files tls_works (some sock, dirs) =
    with_token sock files tls_works (token_path os dirs)

-- `New`: `files` is what can be read, and `tls_works` says whether `ClientTLSConfig` succeeds.
unfoldable pub new_client : Os → FileMap → Bool → Dirs → Option Client × Dirs
unfolding with_socket socket_path
new_client os files tls_works dirs = with_socket os files tls_works (socket_path os dirs)

decoded : {A : Type 0} → Option A → Attempt A
decoded none = failed bad_response
decoded (some a) = made a

-- What the response says.
unfoldable pub json_result : {A : Type 0} → (Body → Option A) → Option Response → Attempt A
unfolding decoded
json_result decode none = failed unreachable
json_result decode (some r) =
    if r.code == 401
    then failed unauthorized
    else if leb 400 r.code
    then failed (server_error r.code r.body)
    else decoded (decode r.body)

unfoldable pub ping_result : Option Response → Option ClientError
ping_result none = some unreachable
ping_result (some r) =
    if r.code == 401
    then some unauthorized
    else if leb 400 r.code
    then some (bad_status r.code)
    else none

-- 150 ms
abbrev pub pause : ℕ
pause = 150000000

-- 3 s
abbrev pub patience : ℕ
patience = 3000000000

-- One look at the clock for each pause that fits, and one more.
abbrev pub most_rounds : ℕ
most_rounds = 21

module _ {N : Type 0} (net : Net N) where
  -- Every caller has something to send, and a place for the response.
  unfoldable pub do_json :
      {A : Type 0} → (Body → Option A) → Client → Bytes → Bytes → Payload → N → Attempt A × N
  unfolding json_result
  do_json decode c method path payload n =
      let (r, n') =
        net.exchange
          (record {
            method = method;
            path = c.base ++ path;
            content_type = codes "application/json";
            token = c.token;
            payload = payload;
          })
          n in
      (json_result decode r, n')

  unfoldable pub ping : Client → N → Option ClientError × N
  unfolding ping_result
  ping c n =
      let (r, n') =
        net.exchange
          (record {
            method = codes "GET";
            path = c.base ++ codes "/v1/status";
            content_type = [];
            token = c.token;
            payload = empty;
          })
          n in
      (ping_result r, n')

  unfoldable pub read_with_flags : Client → Bytes → List Bytes → N → Attempt ReadResponse × N
  unfolding do_json
  read_with_flags c ref flags n =
      do_json net.decode_read c (codes "POST") (codes "/v1/read")
        (read_body (record { ref = ref; flags = flags })) n

  unfoldable pub reads_with_flags :
      Client → List Bytes → List Bytes → N → Attempt (Dict ReadResponse) × N
  unfolding do_json
  reads_with_flags c refs flags n =
      do_json net.decode_reads c (codes "POST") (codes "/v1/reads")
        (reads_body (record { refs = refs; flags = flags })) n

  unfoldable pub resolve_with_flags :
      Client → Dict Bytes → List Bytes → N → Attempt (Dict Bytes) × N
  unfolding do_json
  resolve_with_flags c env flags n =
      do_json net.decode_resolve c (codes "POST") (codes "/v1/resolve")
        (resolve_body (record { env = env; flags = flags })) n

  unfoldable pub get_daemon_path : Bytes
  get_daemon_path = net.getenv (codes "OPX_AUTHD_PATH")

  -- A round of the loop that waits for the daemon, with the rest of it.
  unfoldable pub wait_round :
      (N → Option (Option ClientError) × N)
      → Option ClientError × N
      → Option (Option ClientError) × N
  wait_round rest (none, n) = (some none, n)
  wait_round rest (some e, n) = rest (net.sleep pause n)

  -- The loop; none where the fuel is used up.
  unfoldable pub wait_ready : ℕ → Client → ℕ → N → Option (Option ClientError) × N
  unfolding ping wait_round
  wait_ready zero c deadline n = (none, n)
  wait_ready (suc fuel) c deadline n =
      if ltb (net.now n) deadline
      then wait_round (wait_ready fuel c deadline) (ping c n)
      else (some (some not_ready), n)

  unfoldable pub after_start : Client → Bool × N → Option (Option ClientError) × N
  unfolding wait_ready
  after_start c (false, n) = (some (some launch_failed), n)
  after_start c (true, n) = wait_ready most_rounds c (net.now n + patience) n

  unfoldable pub launch : Client → Option Bytes → N → Option (Option ClientError) × N
  unfolding after_start
  launch c none n = (some (some no_daemon_program), n)
  launch c (some exe) n = after_start c (net.start exe n)

  unfoldable pub daemon_program : Option Bytes
  unfolding get_daemon_path
  daemon_program = if get_daemon_path =ᵇ [] then net.look_path else some get_daemon_path

  unfoldable pub after_ping : Client → Option ClientError × N → Option (Option ClientError) × N
  unfolding launch daemon_program
  after_ping c (none, n) = (some none, n)
  after_ping c (some e, n) =
      if net.getenv (codes "OPX_AUTOSTART") =ᵇ codes "0"
      then (some (some autostart_disabled), n)
      else launch c daemon_program n

  unfoldable pub ensure_daemon : Client → N → Option (Option ClientError) × N
  unfolding after_ping ping
  ensure_daemon c n = after_ping c (ping c n)
