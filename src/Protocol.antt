-- ===== src/Protocol.antt =====
-- internal/protocol/protocol.go: the messages between the client and the daemon.
use opx.Prelude.{ℕ, Bool, Option, List}
use opx.Prelude.Int.{ℤ}
use opx.Prelude.Bytes.{Bytes}
use opx.Dict.{Dict}

pub record ReadRequest : Type 0 where
  pub ref : Bytes
  pub flags : List Bytes

pub record ReadsRequest : Type 0 where
  pub refs : List Bytes
  pub flags : List Bytes

pub record ReadResponse : Type 0 where
  pub ref : Bytes
  pub value : Bytes
  pub from_cache : Bool
  pub expires_in : ℤ
  pub resolved_at : ℤ

-- The variables in the order in which the handler ranges over them.
pub record ResolveRequest : Type 0 where
  pub env : Dict Bytes
  pub flags : List Bytes

pub record SessionStatus : Type 0 where
  pub state : Bytes
  pub idle_timeout : ℤ
  pub time_until_lock : ℤ
  pub enabled : Bool

pub record Status : Type 0 where
  pub backend : Bytes
  pub cache_size : ℕ
  pub hits : ℤ
  pub misses : ℤ
  pub in_flight : ℤ
  pub ttl_seconds : ℤ
  pub socket_path : Bytes
  pub session : Option SessionStatus

pub record SessionUnlockResponse : Type 0 where
  pub success : Bool
  pub state : Bytes
  pub message : Bytes
