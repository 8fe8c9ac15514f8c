-- ===== src/Client/Token.antt =====
-- Which token a new client has, and what a client without one can do.
use opx.Prelude.{
  ℕ, zero, suc, ◌+◌, ◌≡◌, ◌≢◌, refl, sym, ap, ◌∙◌, Bool, true, false, Option, none, some, [], arith,
  ltb, Bool-cases, inl, inr,
}
use opx.Prelude.Bytes.{Bytes, codes, ◌=ᵇ◌}
use opx.Dict.{lookup}
use opx.Strings.{trim_prefix, has_prefix, drop_prefix}
use opx.Daemon.{Daemon}
use opx.Server.{Server}
use opx.Server.Handlers.{Response, handle_status}
use opx.Server.Handlers.Guards.{auth_lem}
use opx.Client.Wire.{Decoder, Moment, on_server, route, answered}
use opx.Files.{Os, Dirs, socket_path, token_path}
use opx.Files.Token.{FileMap, Luck, gave, returned, ensure_token}
use opx.Files.Token.Alone.{ensure_token-again}
use opx.Client.{
  Client, ClientError, Request, Net, or_empty, with_token, with_socket, new_client, ping,
  ping_result, wait_round, wait_ready, most_rounds, pause, patience, after_start, launch,
  daemon_program, after_ping, ensure_daemon,
}

abbrev token_of : Option Client → Bytes
token_of none = []
token_of (some c) = c.token

abbrev base_of : Option Client → Bytes
base_of none = codes "https://unix"
base_of (some c) = c.base

module _ (os : Os) (files : FileMap) where
  with_token-token :
      (sock : Bytes) (tls : Bool) (p : Option Bytes × Dirs) (c : Client) (dirs : Dirs)
      → with_token sock files tls p ≡ (some c, dirs)
      → (path : Bytes) × (p.0 ≡ some path)
        × (c.token ≡ or_empty (lookup path files))
        × (c.base ≡ codes "https://unix")
  unfolding with_token
  with_token-token sock tls (none, d) c dirs h = absurd (ground arith)
  with_token-token sock true (some path, d) c dirs h = (
    path,
    refl,
    sym (ap (λ (r : Option Client × Dirs). token_of r.0) h),
    sym (ap (λ (r : Option Client × Dirs). base_of r.0) h),
  )
  with_token-token sock false (some path, d) c dirs h = absurd (ground arith)

  with_socket-token :
      (tls : Bool) (p : Option Bytes × Dirs) (c : Client) (dirs : Dirs)
      → with_socket os files tls p ≡ (some c, dirs)
      → (path : Bytes) × ((token_path os p.1).0 ≡ some path)
        × (c.token ≡ or_empty (lookup path files))
        × (c.base ≡ codes "https://unix")
  unfolding with_socket
  with_socket-token tls (none, d) c dirs h = absurd (ground arith)
  with_socket-token tls (some sock, d) c dirs h =
      with_token-token sock tls (token_path os d) c dirs h

  pub new_client-token :
      (tls : Bool) (c : Client) (dirs dirs' : Dirs)
      → new_client os files tls dirs ≡ (some c, dirs')
      → (path : Bytes) × ((token_path os (socket_path os dirs).1).0 ≡ some path)
        × (c.token ≡ or_empty (lookup path files))
        × (c.base ≡ codes "https://unix")
  unfolding new_client
  new_client-token tls c dirs dirs' h = with_socket-token tls (socket_path os dirs) c dirs' h

-- A client that is made after a run of `EnsureToken`, with no other process in between, at the path that the client reads has the token which that run
-- gave to the daemon.
pub new_client-ensure_token :
    (os : Os) (l : Luck) (files : FileMap) (tls : Bool) (c : Client) (dirs dirs' : Dirs)
    (path t : Bytes)
    → (token_path os (socket_path os dirs).1).0 ≡ some path
    → (ensure_token path l files).0 ≡ returned (gave t)
    → new_client os (ensure_token path l files).1 tls dirs ≡ (some c, dirs')
    → c.token ≡ t
unfolding or_empty
new_client-ensure_token os l files tls c dirs dirs' path t p h e =
    let (path', p', q, b) = new_client-token os (ensure_token path l files).1 tls c dirs dirs' e in
    let (there, again) =
      ensure_token-again path l (record l { unreadable = false }) files t h refl in
    let same : path' ≡ path = cc in
    q ∙ ap (λ x. or_empty (lookup x (ensure_token path l files).1)) same ∙ ap or_empty there

module _ {N : Type 0} (net : Net N) where
  abbrev pub Refusal : Option Response → Type 0
  Refusal none = Unit {0}
  Refusal (some r) = r.code ≡ 401

  -- The daemon, where it answers, answers 401 to a ping without a token.
  abbrev pub IsStrict : Type 0
  IsStrict =
      (r : Request) (n : N)
      → r.path ≡ codes "https://unix/v1/status"
      → r.token ≡ []
      → Refusal (net.exchange r n).0

  abbrev IsNotReady : Option (Option ClientError) × N → Type 0
  IsNotReady r = r.0 ≢ some none

  module _ (c : Client) (strict : IsStrict) (blank : c.token ≡ [])
      (base : c.base ≡ codes "https://unix") where
    ping_result-Refusal : (o : Option Response) → Refusal o → ping_result o ≢ none
    unfolding ping_result
    ping_result-Refusal none h = ground arith
    ping_result-Refusal (some r) h = rw h (ground arith)

    ping-refused : (n : N) → (ping net c n).0 ≢ none
    unfolding ping
    ping-refused n = ping_result-Refusal _ (strict _ n (rw base refl) blank)

    round-refused :
        (rest : N → Option (Option ClientError) × N) (r : Option ClientError × N)
        → r.0 ≢ none
        → ((n : N) → IsNotReady (rest n))
        → IsNotReady (wait_round net rest r)
    unfolding wait_round
    round-refused rest (none, n) h all = absurd (h refl)
    round-refused rest (some e, n) h all = all (net.sleep pause n)

    wait-refused : (fuel deadline : ℕ) (n : N) → IsNotReady (wait_ready net fuel c deadline n)
    unfolding wait_ready
    wait-refused zero deadline n = ground arith
    wait-refused (suc fuel) deadline n =
        let rest = wait-refused fuel deadline in
        elim (Bool-cases (ltb (net.now n) deadline)) [
          | inl early ↦
              rw early (
                round-refused (wait_ready net fuel c deadline) (ping net c n) (ping-refused n) rest)
          | inr late ↦ rw late (ground arith)
        ]

    start-refused : (r : Bool × N) → IsNotReady (after_start net c r)
    unfolding after_start
    start-refused (false, n) = ground arith
    start-refused (true, n) = wait-refused most_rounds (net.now n + patience) n

    launch-refused : (o : Option Bytes) (n : N) → IsNotReady (launch net c o n)
    unfolding launch
    launch-refused none n = ground arith
    launch-refused (some exe) n = start-refused (net.start exe n)

    first-refused : (r : Option ClientError × N) → r.0 ≢ none → IsNotReady (after_ping net c r)
    unfolding after_ping
    first-refused (none, n) h = absurd (h refl)
    first-refused (some e, n) h =
        elim (Bool-cases (net.getenv (codes "OPX_AUTOSTART") =ᵇ codes "0")) [
          | inl off ↦ rw off (ground arith)
          | inr on ↦ rw on (launch-refused (daemon_program net) n)
        ]

    ensure-refused : (n : N) → IsNotReady (ensure_daemon net c n)
    unfolding ensure_daemon
    ensure-refused n = first-refused (ping net c n) (ping-refused n)

-- A client that is made while there is no token file does not become ready, also where it starts a daemon that then
-- makes the file: where a daemon answers, it refuses the empty token, which the client keeps.
pub first_run-not_ready :
    {N : Type 0} (net : Net N) (os : Os) (files : FileMap) (tls : Bool) (c : Client)
    (dirs dirs' : Dirs) (n : N)
    → IsStrict net
    → ((path : Bytes)
        → (token_path os (socket_path os dirs).1).0 ≡ some path
        → lookup path files ≡ none)
    → new_client os files tls dirs ≡ (some c, dirs')
    → (ensure_daemon net c n).0 ≢ some none
unfolding or_empty
first_run-not_ready net os files tls c dirs dirs' n strict absent e =
    let (path, p, q, b) = new_client-token os files tls c dirs dirs' e in
    ensure-refused net c strict (q ∙ ap or_empty (absent path p)) b n

-- The server is such a daemon.
pub on_server-IsStrict :
    {E : Type 0} (s : Server E) (json : Decoder) (t : Moment) (outside : Net (Daemon E))
    → IsStrict (on_server s json t outside)
unfolding on_server route answered trim_prefix has_prefix drop_prefix ◌=ᵇ◌
on_server-IsStrict s json t outside r d p blank =
    rw p (elim (auth_lem s r.token (handle_status s t.now) d) [
      | inl (same, full, e) ↦ absurd (full (sym same ∙ blank))
      | inr (other, e) ↦ rw e refl
    ])
