-- ===== src/Server/Handlers.antt =====
-- The handlers of the daemon (internal/server/server.go). A request's body is what the JSON decoder
-- gives, none where it fails; a response is its code and what is encoded into it. A handler that
-- reads many references has one clock for each.
pub mod Guards
use opx.Prelude.{
  ℕ, ◌+◌, Bool, true, false, not, ◌||◌, Option, none, some, List, [], ◌∷◌, ◌++◌, if◌then◌else◌,
}
use opx.Prelude.Int.{ℤ, pos, ltb_ℤ}
use opx.Prelude.Bytes.{Bytes, codes, ◌=ᵇ◌}
use opx.Strings.{trim_space}
use opx.Dict.{Dict, insert}
use opx.Cache.{stats}
use opx.Session.{SessionInfo, state_text, time_until_lock}
use opx.Session.Manager.{Manager, SessionError, get_info, validate_session}
use opx.Security.{PeerInfo}
use opx.Protocol.{
  ReadRequest, ReadsRequest, ReadResponse, ResolveRequest, SessionStatus, Status,
  SessionUnlockResponse,
}
use opx.Backend.{Result, ok, err}
use opx.Daemon.{World, Daemon}
use opx.Server.{Server, Clock, seconds, unix, read_one_with_flags}

pub data Body : Type 0 where
  text : Bytes → Body
  one_read : ReadResponse → Body
  reads : Dict ReadResponse → Body
  resolved : Dict Bytes → Body
  status : Status → Body
  unlock : SessionUnlockResponse → Body

pub record Response : Type 0 where
  pub code : ℕ
  pub body : Body

-- `http.Error`
unfoldable pub http_error : ℕ → Bytes → Response
http_error c message = record { code = c; body = text (message ++ 10 ∷ []) }

abbrev pub reply : Body → Response
reply b = record { code = 200; body = b }

abbrev pub Handler : Type 0 → Type 0
Handler E = Daemon E → Response × Daemon E

failed_read : Bytes → ℤ → ReadResponse
unfolding unix
failed_read ref now = record {
  ref = ref;
  value = codes "ERROR: failed to read secret";
  from_cache = false;
  expires_in = pos 0;
  resolved_at = unix now;
}

-- What a resolution has so far: the first name that fails ends it.
pub data Progress : Type 0 where
  so_far : Dict Bytes → Progress
  failed_at : Bytes → Progress

module _ {E : Type 0} where
  -- `tok` is the header `X-OpAuthd-Token`, empty where there is none. `authWithPolicy` adds nothing
  -- to it: the peer, where the context has one, is put into it once more.
  unfoldable pub auth : Server E → Bytes → Handler E → Handler E
  auth s tok next d =
      if (tok =ᵇ []) || not (tok =ᵇ s.token)
      then (record { code = 401; body = text (codes "unauthorized") }, d)
      else next d

  session_status : ℤ → Option (Manager (World E)) → Option SessionStatus
  unfolding seconds get_info state_text time_until_lock
  session_status now none = none
  session_status now (some m) =
      let info = get_info m in
      some (record {
        state = state_text info.state;
        idle_timeout = seconds info.idle_timeout;
        time_until_lock = seconds (time_until_lock info now);
        enabled = ltb_ℤ (pos 0) info.idle_timeout;
      })

  unfoldable pub handle_status : Server E → ℤ → Handler E
  unfolding session_status seconds stats
  handle_status s now d =
      let (size, hits, misses, in_flight) = stats d.world.cache in
      (
        reply (
            status (record {
              backend = s.backend.name;
              cache_size = size;
              hits = hits;
              misses = misses;
              in_flight = in_flight;
              ttl_seconds = seconds d.world.cache.ttl;
              socket_path = s.sock_path;
              session = session_status now d.session;
            })),
        d,
      )

  unfoldable pub read_reply : Result ReadResponse × Daemon E → Response × Daemon E
  unfolding http_error
  read_reply (ok r, d) = (reply (one_read r), d)
  read_reply (err e, d) = (http_error 502 (codes "failed to read secret"), d)

  unfoldable pub handle_read : Server E → Option PeerInfo → Option ReadRequest → Clock → Handler E
  unfolding http_error read_reply
  handle_read s peer none t d = (http_error 400 (codes "bad json"), d)
  handle_read s peer (some req) t d =
      let ref = trim_space req.ref in
      if ref =ᵇ []
      then (http_error 400 (codes "ref required"), d)
      else read_reply (read_one_with_flags s peer ref req.flags t d)

  record_read :
      Bytes
      → Clock
      → Dict ReadResponse
      → Result ReadResponse × Daemon E
      → Dict ReadResponse × Daemon E
  unfolding failed_read
  record_read ref t result (ok r, d) = (insert ref r result, d)
  record_read ref t result (err e, d) = (insert ref (failed_read ref t.resolved) result, d)

  -- The clock of the n-th reference is `clocks n`.
  unfoldable pub read_all :
      Server E
      → Option PeerInfo
      → List Bytes
      → (ℕ → Clock)
      → ℕ
      → List Bytes
      → Dict ReadResponse × Daemon E
      → Dict ReadResponse × Daemon E
  unfolding record_read
  read_all s peer flags clocks n [] r = r
  read_all s peer flags clocks n (raw ∷ refs) (result, d) =
      let ref = trim_space raw in
      read_all s peer flags clocks (n + 1) refs (
        if ref =ᵇ []
        then (result, d)
        else record_read ref (clocks n) result (read_one_with_flags s peer ref flags (clocks n) d))

  reads_reply : Dict ReadResponse × Daemon E → Response × Daemon E
  reads_reply (result, d) = (reply (reads result), d)

  unfoldable pub handle_reads :
      Server E → Option PeerInfo → Option ReadsRequest → (ℕ → Clock) → Handler E
  unfolding http_error read_all reads_reply
  handle_reads s peer none clocks d = (http_error 400 (codes "bad json"), d)
  handle_reads s peer (some req) clocks d =
      reads_reply (read_all s peer req.flags clocks 0 req.refs ([], d))

  keep_value : Bytes → Dict Bytes → Result ReadResponse × Daemon E → Progress × Daemon E
  keep_value name out (ok r, d) = (so_far (insert name r.value out), d)
  keep_value name out (err e, d) = (failed_at name, d)

  unfoldable pub resolve_all :
      Server E
      → Option PeerInfo
      → List Bytes
      → (ℕ → Clock)
      → ℕ
      → Dict Bytes
      → Progress × Daemon E
      → Progress × Daemon E
  unfolding keep_value
  resolve_all s peer flags clocks n env (failed_at name, d) = (failed_at name, d)
  resolve_all s peer flags clocks n [] (so_far out, d) = (so_far out, d)
  resolve_all s peer flags clocks n ((name, ref) ∷ env) (so_far out, d) =
      resolve_all s peer flags clocks (n + 1) env
        (keep_value name out (read_one_with_flags s peer ref flags (clocks n) d))

  resolve_reply : Progress × Daemon E → Response × Daemon E
  unfolding http_error
  resolve_reply (so_far out, d) = (reply (resolved out), d)
  resolve_reply (failed_at name, d) =
      (http_error 502 (codes "resolve " ++ (name ++ codes ": failed to read secret")), d)

  unfoldable pub handle_resolve :
      Server E → Option PeerInfo → Option ResolveRequest → (ℕ → Clock) → Handler E
  unfolding http_error resolve_all resolve_reply
  handle_resolve s peer none clocks d = (http_error 400 (codes "bad json"), d)
  handle_resolve s peer (some req) clocks d =
      resolve_reply (resolve_all s peer req.flags clocks 0 req.env (so_far [], d))

  -- `describe` is the text of an error, which holds that of the callback.
  unlock_reply : (SessionError → Bytes) → Manager (World E) → Option SessionError → Response
  unfolding get_info state_text
  unlock_reply describe m none = record {
    code = 200;
    body = unlock (record {
      success = true;
      state = state_text (get_info m).state;
      message = codes "Session unlocked successfully";
    });
  }
  unlock_reply describe m (some e) = record {
    code = 401;
    body = unlock (record {
      success = false;
      state = state_text (get_info m).state;
      message = codes "Session unlock failed: " ++ describe e;
    });
  }

  unfoldable pub unlock_with :
      (SessionError → Bytes) → ℤ → Daemon E → Option (Manager (World E)) → Response × Daemon E
  unfolding unlock_reply
  unlock_with describe now d none = (
    record {
      code = 400;
      body = unlock (record {
        success = false;
        state = codes "disabled";
        message = codes "Session management is disabled";
      });
    },
    d,
  )
  unlock_with describe now d (some m) =
      let (m', w, e) = validate_session m d.world now in
      (unlock_reply describe m' e, record d { session = some m'; world = w })

  unfoldable pub handle_session_unlock : (SessionError → Bytes) → Bytes → ℤ → Handler E
  unfolding http_error unlock_with
  handle_session_unlock describe method now d =
      if method =ᵇ codes "POST"
      then unlock_with describe now d d.session
      else (http_error 405 (codes "Method not allowed"), d)
