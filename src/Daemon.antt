-- ===== src/Daemon.antt =====
-- The state that the parts of the daemon share, and the session-aware backend over it
-- (internal/backend/session_aware.go).
--
-- `E` is the state of the system outside, which the program `op` reads and changes; `op` is a
-- parameter, which gives its output for its arguments, or none where it fails.
pub mod Callbacks
pub mod Start
use opx.Prelude.{Bool, true, false, Option, none, some, List, [], ◌∷◌, ◌++◌}
use opx.Prelude.Int.{ℤ}
use opx.Prelude.Bytes.{Bytes, codes}
use opx.Cache.{Cache, clear}
use opx.Session.Manager.{
  Manager, Callback, SessionError, set_callbacks, validate_session, update_activity,
}
use opx.Audit.Events.{AuditEvent}
use opx.Backend.{Result, ok, err, Backend, session_invalid}
use opx.Backend.OpCli.{op_cli, fake}

-- What the callbacks of the session manager act on.
pub record World (E : Type 0) : Type 0 where
  pub cache : Cache
  pub outside : E

-- A server without session management has no manager.
pub record Daemon (E : Type 0) : Type 0 where
  pub session : Option (Manager (World E))
  pub world : World E
  pub audit_log : List AuditEvent

abbrev pub Op : Type 0 → Type 0
Op E = List Bytes → E → Option Bytes × E

is_some : Option Bytes → Bool
is_some none = false
is_some (some b) = true

module _ {E : Type 0} (op : Op E) where
  -- The unlock callback: whether `op whoami` succeeds.
  unfoldable pub validate_current_session : Callback (World E)
  unfolding is_some
  validate_current_session w =
      let (out, e) = op (codes "whoami" ∷ []) w.outside in (is_some out, record w { outside = e })

  -- The lock callback of the backend: a failure is ignored.
  unfoldable pub clear_cli_session : Callback (World E)
  clear_cli_session w =
      (true, record w { outside = (op (codes "signout" ∷ codes "--forget" ∷ []) w.outside).1 })

  -- The lock callback of the server.
  unfoldable pub clear_cache : Callback (World E)
  clear_cache w = (true, record w { cache = (clear w.cache).0 })

  unfoldable pub setup_session_lock_callback : Manager (World E) → Manager (World E)
  unfolding clear_cache validate_current_session
  setup_session_lock_callback m = set_callbacks m clear_cache validate_current_session

  -- `op` as the command of the backend.
  unfoldable pub on_outside : List Bytes → Daemon E → Option Bytes × Daemon E
  on_outside args d =
      let (out, e) = op args d.world.outside in
      (out, record d { world = record d.world { outside = e } })

  unfoldable pub plain_op_cli : Backend (Daemon E)
  unfolding on_outside
  plain_op_cli = op_cli on_outside

module _ {E : Type 0} where
  unfoldable pub touch : ℤ → Option (Manager (World E)) → Option (Manager (World E))
  touch now none = none
  touch now (some m) = some (update_activity m now)

  unfoldable pub after_read : ℤ → Result Bytes × Daemon E → Result Bytes × Daemon E
  unfolding touch
  after_read now (ok v, d) = (ok v, record d { session = touch now d.session })
  after_read now (err e, d) = (err e, d)

  unfoldable pub validated :
      Backend (Daemon E)
      → Bytes
      → List Bytes
      → ℤ
      → Daemon E
      → Option SessionError
      → Result Bytes × Daemon E
  unfolding after_read
  validated inner ref flags now d (some e) = (err session_invalid, d)
  validated inner ref flags now d none = after_read now (inner.read_ref_with_flags ref flags now d)

  -- The backend has a manager; that of the daemon is the same object.
  unfoldable pub read_in_session :
      Backend (Daemon E)
      → Bytes
      → List Bytes
      → ℤ
      → Daemon E
      → Option (Manager (World E))
      → Result Bytes × Daemon E
  unfolding validated
  read_in_session inner ref flags now d none = (err session_invalid, d)
  read_in_session inner ref flags now d (some m) =
      let (m', w, e) = validate_session m d.world now in
      validated inner ref flags now (record d { session = some m'; world = w }) e

  unfoldable pub session_aware : Backend (Daemon E) → Backend (Daemon E)
  unfolding read_in_session
  session_aware inner = record {
    name = inner.name ++ codes "+session";
    read_ref_with_flags = λ ref flags now d. read_in_session inner ref flags now d d.session;
  }

module _ {E : Type 0} (op : Op E) where
  -- `NewSessionAwareOpCLI` sets the callbacks of the manager, and wraps the backend.
  unfoldable pub new_session_aware_op_cli :
      Manager (World E) → Manager (World E) × Backend (Daemon E)
  unfolding clear_cli_session validate_current_session session_aware plain_op_cli
  new_session_aware_op_cli m = (
    set_callbacks m (clear_cli_session op) (validate_current_session op),
    session_aware (plain_op_cli op),
  )

  unfoldable pub new_session_aware_fake :
      (Bytes → Bytes) → Manager (World E) → Manager (World E) × Backend (Daemon E)
  unfolding session_aware
  new_session_aware_fake sha256 m =
      (set_callbacks m (λ w. (true, w)) (λ w. (true, w)), session_aware (fake sha256))
