-- ===== src/Audit/Events.antt =====
-- internal/audit/audit.go: the events, and how each method of the logger makes one.
use opx.Prelude.{◌-◌, Bool, Option, none, some, List, [], ◌∷◌, if◌then◌else◌}
use opx.Prelude.Int.{ℤ, negsuc}
use opx.Prelude.Bytes.{Bytes, codes}
use opx.Security.{PeerInfo}

pub record AuditEvent : Type 0 where
  pub timestamp : ℤ
  pub event : Bytes
  pub peer_info : PeerInfo
  pub reference : Bytes
  pub decision : Bytes
  pub policy_path : Bytes
  pub details : List (Bytes × Bytes)

-- The zero time, until `LogEvent` stamps the event.
abbrev pub no_time : ℤ
no_time = negsuc (62135596800000000000 - 1)

-- The event that `LogAccessDecision` hands to `LogEvent`.
unfoldable pub access_decision : PeerInfo → Bytes → Bool → Bytes → List (Bytes × Bytes) → AuditEvent
access_decision peer_info reference allowed policy_path details = record {
  timestamp = no_time;
  event = codes "ACCESS_DECISION";
  peer_info = peer_info;
  reference = reference;
  decision = if allowed then codes "ALLOW" else codes "DENY";
  policy_path = policy_path;
  details = details;
}

unfoldable pub session_event : Bytes → PeerInfo → Bytes → List (Bytes × Bytes) → AuditEvent
session_event event_type peer_info decision details = record {
  timestamp = no_time;
  event = event_type;
  peer_info = peer_info;
  reference = [];
  decision = decision;
  policy_path = [];
  details = details;
}

unfoldable pub authentication_event : PeerInfo → Bool → Bytes → AuditEvent
authentication_event peer_info success reason = record {
  timestamp = no_time;
  event = codes "AUTHENTICATION";
  peer_info = peer_info;
  reference = [];
  decision = if success then codes "SUCCESS" else codes "FAILURE";
  policy_path = [];
  details = (codes "reason", reason) ∷ [];
}

-- `LogEvent` stamps an event and records it, where the logger is enabled.
unfoldable pub stamp : Bool → ℤ → AuditEvent → Option AuditEvent
stamp enabled now e = if enabled then some (record e { timestamp = now }) else none
