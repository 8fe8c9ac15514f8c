-- ===== src/Server.antt =====
-- internal/server/server.go: the reads of the daemon, and who may make them. The handlers of HTTP
-- are in Server/Handlers.
--
-- `golang.org/x/sync/singleflight` is not modelled: no other read is in flight, where its `Do` runs
-- the function that it is given and returns what that returns.
pub mod Keys
pub mod Reads
pub mod Transparent
pub mod Locked
pub mod Handlers
pub mod Start
pub mod Unaware
pub mod Overlap
use opx.Prelude.{
  ℕ, ◌+◌, ◌-◌, ◌/◌, Bool, true, false, not, Option, none, some, List, [], ◌∷◌, ◌++◌, if◌then◌else◌,
}
use opx.Prelude.Int.{ℤ, pos, negsuc, sub_ℕ, ◌-ℤ◌}
use opx.Prelude.Bytes.{Bytes, codes}
use opx.Strings.{join, decimal}
use opx.Cache.{Cache, Found, get, set_value, inc_hit, inc_miss, inc_in_flight, dec_in_flight}
use opx.Policy.{Policy, Subject, allowed}
use opx.Security.{PeerInfo, System, peer_from_unix_conn}
use opx.Audit.Events.{AuditEvent, access_decision, stamp}
use opx.Session.{since}
use opx.Protocol.{ReadResponse}
use opx.Backend.{Result, ok, err, Backend, access_denied}
use opx.Daemon.{World, Daemon}

-- The fields of `Server` that do not change, and `crypto/sha256`. A server without an audit logger
-- and one whose logger is disabled do the same.
pub record Server (E : Type 0) : Type 0 where
  pub sock_path : Bytes
  pub token : Bytes
  pub backend : Backend (Daemon E)
  pub policy : Policy
  pub policy_path : Bytes
  pub audit_enabled : Bool
  pub sha256 : Bytes → Bytes

-- What the clock says at the places at which one read asks it, in the order of the code.
pub record Clock : Type 0 where
  pub decided : ℤ
  pub looked_up : ℤ
  pub answered : ℤ
  pub looked_again : ℤ
  pub answered_again : ℤ
  pub called : ℤ
  pub stored : ℤ
  pub stored_again : ℤ
  pub resolved : ℤ

-- `int(d.Seconds())`, up to the rounding of the floating-point number in between.
unfoldable pub seconds : ℤ → ℤ
seconds (pos n) = pos (n / 1000000000)
seconds (negsuc n) = sub_ℕ 0 ((n + 1) / 1000000000)

-- `t.Unix()`
unfoldable pub unix : ℤ → ℤ
unix (pos n) = pos (n / 1000000000)
unix (negsuc n) = negsuc (n / 1000000000)

unfoldable pub cache_key : Bytes → List Bytes → Bytes
unfolding join
cache_key ref [] = ref
cache_key ref (f ∷ flags) = ref ++ (codes "|flags:" ++ join (codes ",") (f ∷ flags))

-- `time.Until(exp)` is `exp.Sub(now)`.
unfoldable pub from_cache_response : Bytes → ℤ → Found → ReadResponse
unfolding seconds unix since
from_cache_response ref now (v, exp, cached) = record {
  ref = ref;
  value = v;
  from_cache = true;
  expires_in = seconds (since exp now);
  resolved_at = unix cached;
}

unfoldable pub fresh_response : Bytes → Bytes → ℤ → ℤ → ReadResponse
unfolding seconds unix
fresh_response ref v ttl now = record {
  ref = ref;
  value = v;
  from_cache = false;
  expires_in = seconds ttl;
  resolved_at = unix now;
}

abbrev pub subject_of : PeerInfo → Subject
subject_of p = record { pid = p.pid; path = p.path }

module _ {E : Type 0} where
  unfoldable pub on_cache : (Cache → Cache) → Daemon E → Daemon E
  on_cache f d = record d { world = record d.world { cache = f d.world.cache } }

  log_event : Option AuditEvent → Daemon E → Daemon E
  log_event none d = d
  log_event (some e) d = record d { audit_log = d.audit_log ++ e ∷ [] }

  -- The decision, recorded in the audit log.
  unfoldable pub validate_access : Server E → PeerInfo → Bytes → ℤ → Daemon E → Bool × Daemon E
  unfolding log_event access_decision stamp
  validate_access s peer ref now d =
      let answer = allowed s.sha256 s.policy (subject_of peer) ref in
      let details =
        (codes "subject_pid", decimal peer.pid) ∷ (codes "subject_path", peer.path) ∷ [] in
      (
        answer,
        log_event
            (stamp s.audit_enabled now (access_decision peer ref answer s.policy_path details)) d,
      )

  -- Without information on the peer there is no check.
  unfoldable pub check_access : Server E → Option PeerInfo → Bytes → ℤ → Daemon E → Bool × Daemon E
  unfolding validate_access
  check_access s none ref now d = (true, d)
  check_access s (some peer) ref now d = validate_access s peer ref now d

  pub store_result :
      Bytes → Bytes → Clock → Result Bytes × Daemon E → Result ReadResponse × Daemon E
  unfolding on_cache fresh_response
  store_result key ref t (err e, d) = (err e, d)
  store_result key ref t (ok v, d) =
      let d' = on_cache (λ c. set_value c key v t.stored t.stored_again) d in
      (ok (fresh_response ref v d'.world.cache.ttl t.resolved), d')

  -- The function that the single flight runs: the cache is looked up once more.
  pub fly_found :
      Server E
      → Bytes
      → Bytes
      → List Bytes
      → Clock
      → Daemon E
      → Option Found
      → Result ReadResponse × Daemon E
  unfolding on_cache from_cache_response store_result
  fly_found s key ref flags t d (some r) =
      (ok (from_cache_response ref t.answered_again r), on_cache inc_hit d)
  fly_found s key ref flags t d none =
      store_result key ref t (s.backend.read_ref_with_flags ref flags t.called d)

  unfoldable pub fly :
      Server E → Bytes → Bytes → List Bytes → Clock → Daemon E → Result ReadResponse × Daemon E
  unfolding fly_found
  fly s key ref flags t d = fly_found s key ref flags t d (get d.world.cache key t.looked_again)

  -- The deferred `DecInFlight` runs on every way out.
  pub leaving : Result ReadResponse × Daemon E → Result ReadResponse × Daemon E
  unfolding on_cache
  leaving (r, d) = (r, on_cache dec_in_flight d)

  pub read_found :
      Server E
      → Bytes
      → Bytes
      → List Bytes
      → Clock
      → Daemon E
      → Option Found
      → Result ReadResponse × Daemon E
  unfolding on_cache from_cache_response leaving fly
  read_found s key ref flags t d (some r) =
      (ok (from_cache_response ref t.answered r), on_cache inc_hit d)
  read_found s key ref flags t d none =
      leaving (fly s key ref flags t (on_cache (λ c. inc_in_flight (inc_miss c)) d))

  pub read_granted :
      Server E → Bytes → List Bytes → Clock → Bool × Daemon E → Result ReadResponse × Daemon E
  unfolding read_found cache_key
  read_granted s ref flags t (false, d) = (err access_denied, d)
  read_granted s ref flags t (true, d) =
      let key = cache_key ref flags in
      read_found s key ref flags t d (get d.world.cache key t.looked_up)

  unfoldable pub read_one_with_flags :
      Server E
      → Option PeerInfo
      → Bytes
      → List Bytes
      → Clock
      → Daemon E
      → Result ReadResponse × Daemon E
  unfolding read_granted check_access
  read_one_with_flags s peer ref flags t d =
      read_granted s ref flags t (check_access s peer ref t.decided d)

  unfoldable pub read_one :
      Server E → Option PeerInfo → Bytes → Clock → Daemon E → Result ReadResponse × Daemon E
  unfolding read_one_with_flags
  read_one s peer ref t d = read_one_with_flags s peer ref [] t d

-- The connections: a Unix socket, or a connection that `crypto/tls` has wrapped around another.
pub data Conn : Type 0 where
  unix_conn : Conn
  tls_conn : Conn → Conn

-- What the context of a connection holds on the peer.
unfoldable pub peer_conn_context : System → Conn → Option PeerInfo
unfolding peer_from_unix_conn
peer_conn_context sys unix_conn = peer_from_unix_conn sys
peer_conn_context sys (tls_conn c) = none

-- `Serve` accepts from the listener that `tls.NewListener` wraps around that of the socket.
abbrev pub accepted : Conn
accepted = tls_conn unix_conn
