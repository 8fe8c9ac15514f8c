-- ===== src/Client/Wire.antt =====
-- The client and the daemon together: `mux` of `Server.Serve` (internal/server/server.go) answers
-- the requests of the client. JSON is a parameter, which gives back the
-- request and the response in question.
use opx.Prelude.{
  ℕ, ◌≡◌, ◌≢◌, ◌⊎◌, refl, sym, ap, ◌∙◌, false, Option, none, some, List, [], ◌∷◌, ◌++◌, inl, inr,
  if◌then◌else◌,
}
use opx.Prelude.Int.{ℤ}
use opx.Prelude.Bytes.{Bytes, codes, ◌=ᵇ◌}
use opx.Strings.{trim_space, trim_prefix, has_prefix, drop_prefix}
use opx.Protocol.{ReadRequest, ReadsRequest, ReadResponse, ResolveRequest}
use opx.Security.{PeerInfo}
use opx.Session.Manager.{SessionError}
use opx.Backend.{Result, ok, err}
use opx.Daemon.{Daemon}
use opx.Server.{Server, Clock, read_one_with_flags}
use opx.Server.Handlers.{
  Response, Handler, text, one_read, http_error, auth, handle_status, handle_read, read_reply,
  handle_reads, handle_resolve, handle_session_unlock,
}
use opx.Server.Handlers.Guards.{auth_lem, unauthorized as refusal}
use opx.Client.{
  Client, Request, Payload, ClientError, Attempt, Net, read_body, failed, made, unauthorized,
  server_error, do_json, json_result, decoded, ping, ping_result, read_with_flags, after_ping,
  ensure_daemon,
}

-- The JSON decoder of the daemon, on the payload of a request.
pub record Decoder : Type 0 where
  pub to_read : Payload → Option ReadRequest
  pub to_reads : Payload → Option ReadsRequest
  pub to_resolve : Payload → Option ResolveRequest

-- What the handlers read besides the request: the peer of the connection, the clock, and the texts
-- of the errors of a session.
pub record Moment : Type 0 where
  pub peer : Option PeerInfo
  pub now : ℤ
  pub clock : Clock
  pub clocks : ℕ → Clock
  pub describe : SessionError → Bytes

module _ {E : Type 0} (s : Server E) (json : Decoder) (t : Moment) where
  -- The handler of a path of the URL.
  unfoldable pub route : Bytes → Request → Handler E
  unfolding auth handle_status handle_read handle_reads handle_resolve handle_session_unlock
      http_error
  route path r =
      if path =ᵇ codes "/v1/status"
      then auth s r.token (handle_status s t.now)
      else if path =ᵇ codes "/v1/read"
      then auth s r.token (handle_read s t.peer (json.to_read r.payload) t.clock)
      else if path =ᵇ codes "/v1/reads"
      then auth s r.token (handle_reads s t.peer (json.to_reads r.payload) t.clocks)
      else if path =ᵇ codes "/v1/resolve"
      then auth s r.token (handle_resolve s t.peer (json.to_resolve r.payload) t.clocks)
      else if path =ᵇ codes "/v1/session/unlock"
      then auth s r.token (handle_session_unlock t.describe r.method t.now)
      else (λ d. (http_error 404 (codes "404 page not found"), d))

  unfoldable pub answered : Response × Daemon E → Option Response × Daemon E
  answered (r, d) = (some r, d)

  -- The net of a client whose connections reach the daemon.
  unfoldable pub on_server : Net (Daemon E) → Net (Daemon E)
  unfolding route answered trim_prefix
  on_server outside = record outside {
    exchange = λ r d. answered (route (trim_prefix r.path (codes "https://unix")) r d);
  }

-- JSON gives back this request, and the response of this result, as it does for texts in UTF-8; in other
-- texts it replaces what is not UTF-8.
pub record IsCoded {N : Type 0} (json : Decoder) (net : Net N) (q : ReadRequest)
    (r : Result ReadResponse) : Type 0 where
  pub request : json.to_read (read_body q) ≡ some q
  pub response : (v : ReadResponse) → r ≡ ok v → net.decode_read (one_read v) ≡ some v

-- What a client sees of the read of a secret.
abbrev pub seen : Result ReadResponse → Attempt ReadResponse
seen (ok v) = made v
seen (err e) = failed (server_error 502 (text (codes "failed to read secret" ++ 10 ∷ [])))

module _ {E : Type 0} (s : Server E) (json : Decoder) (t : Moment) (outside : Net (Daemon E))
    (c : Client) (base : c.base ≡ codes "https://unix") where
  abbrev sees_read : Response × Daemon E → Attempt ReadResponse × Daemon E
  sees_read (r, d) = (json_result outside.decode_read (some r), d)

  abbrev sees_ping : Response × Daemon E → Option ClientError × Daemon E
  sees_ping (r, d) = (ping_result (some r), d)

  read-routed :
      (ref : Bytes) (flags : List Bytes) (d : Daemon E)
      → let q = read_body (record { ref = ref; flags = flags }) in
        read_with_flags (on_server s json t outside) c ref flags d
        ≡ sees_read (auth s c.token (handle_read s t.peer (json.to_read q) t.clock) d)
  unfolding on_server read_with_flags do_json answered route trim_prefix has_prefix drop_prefix ◌=ᵇ◌
  read-routed ref flags d = rw base refl

  ping-routed :
      (d : Daemon E)
      → ping (on_server s json t outside) c d ≡ sees_ping (auth s c.token (handle_status s t.now) d)
  unfolding on_server ping answered route trim_prefix has_prefix drop_prefix ◌=ᵇ◌
  ping-routed d = rw base refl

  seen-read :
      (q : ReadRequest) (r : Result ReadResponse × Daemon E)
      → IsCoded json outside q r.0
      → ◌≡◌ {A = Attempt ReadResponse × Daemon E} (sees_read (read_reply r)) (seen r.0, r.1)
  unfolding json_result read_reply decoded http_error
  seen-read q (ok v, d) codec = rw (codec.response v refl) refl
  seen-read q (err e, d) codec = refl

  accepted :
      (next : Handler E) (d : Daemon E)
      → c.token ≡ s.token
      → s.token ≢ []
      → auth s c.token next d ≡ next d
  accepted next d same full = elim (auth_lem s c.token next d) [
    | inl (p, q, e) ↦ e
    | inr (inl p, e) ↦ absurd (p same)
    | inr (inr p, e) ↦ absurd (full p)
  ]

  refused :
      (next : Handler E) (d : Daemon E)
      → (c.token ≢ s.token) ⊎ (c.token ≡ [])
      → auth s c.token next d ≡ (refusal, d)
  refused next d h = elim (auth_lem s c.token next d) [
    | inl (p, q, e) ↦ elim h [
      | inl other ↦ absurd (other p)
      | inr blank ↦ absurd (q (sym p ∙ blank))
    ]
    | inr (p, e) ↦ e
  ]

  -- A client that has the daemon's token, which is not empty, sees of a reference that is not blank what the daemon's
  -- read of the reference without the white space at its ends gives: the response, or, for every error, the code 502
  -- with one text. The daemon is as after that read.
  pub client_read-reads :
      c.token ≡ s.token
      → s.token ≢ []
      → (ref : Bytes) (flags : List Bytes) (d : Daemon E)
      → IsCoded json outside
          (record { ref = ref; flags = flags })
          (read_one_with_flags s t.peer (trim_space ref) flags t.clock d).0
      → (trim_space ref =ᵇ []) ≡ false
      → let (r, d') = read_one_with_flags s t.peer (trim_space ref) flags t.clock d in
        read_with_flags (on_server s json t outside) c ref flags d ≡ (seen r, d')
  unfolding handle_read
  client_read-reads same full ref flags d codec h =
      let q : ReadRequest = record { ref = ref; flags = flags } in
      read-routed ref flags d
      ∙ ap sees_read (
          accepted (handle_read s t.peer (json.to_read (read_body q)) t.clock) d same full
          ∙ rw (codec.request, h) refl)
      ∙ seen-read q (read_one_with_flags s t.peer (trim_space ref) flags t.clock d) codec

  -- A client that has another token than the daemon, or an empty one, is refused, by a read and by a ping, and the
  -- daemon stays as it is.
  pub client_refused :
      (c.token ≢ s.token) ⊎ (c.token ≡ [])
      → (ref : Bytes) (flags : List Bytes) (d : Daemon E)
      → let net = on_server s json t outside in
        (read_with_flags net c ref flags d ≡ (failed unauthorized, d))
        × (ping net c d ≡ (some unauthorized, d))
  unfolding json_result ping_result
  client_refused h ref flags d =
      let q = json.to_read (read_body (record { ref = ref; flags = flags })) in
      (
        read-routed ref flags d ∙ ap sees_read (refused (handle_read s t.peer q t.clock) d h),
        ping-routed d ∙ ap sees_ping (refused (handle_status s t.now) d h),
      )

  -- A client that has the daemon's token, which is not empty, is ready at once, and its ping leaves the daemon as it is.
  pub client_ready :
      c.token ≡ s.token
      → s.token ≢ []
      → (d : Daemon E) → ensure_daemon (on_server s json t outside) c d ≡ (some none, d)
  unfolding ensure_daemon after_ping handle_status ping_result
  client_ready same full d = rw (ping-routed d, accepted (handle_status s t.now) d same full) refl
