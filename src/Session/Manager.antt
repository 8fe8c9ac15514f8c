-- ===== src/Session/Manager.antt =====
-- internal/session/manager.go: the session manager.
--
-- The callbacks act on the rest of the program, whose state is `W`; a callback returns whether it
-- succeeded. Each method that holds the lock is one step, and the methods that give it back in
-- between (`ValidateSession` and what it calls) are here run with no other method in between.
-- Logging is left out.
pub mod States
pub mod Idle
pub mod Monitor
use opx.Prelude.{◌-◌, Bool, true, false, ◌&&◌, Option, none, some, if◌then◌else◌}
use opx.Prelude.Int.{ℤ, pos, negsuc, ltb_ℤ}
use opx.Session.{
  SessionState, SessionInfo, unknown, authenticated, locked, expired, is_active, requires_unlock,
  since,
}
use opx.Session.Config.{Config, default_config}

abbrev pub Callback {ℓ} : Type ℓ → Type ℓ
Callback W = W → Bool × W

pub record Manager {ℓ} (W : Type ℓ) : Type ℓ where
  pub config : Config
  pub state : SessionState
  pub last_activity : ℤ
  pub locked_at : ℤ
  pub lock_callback : Option (Callback W)
  pub unlock_callback : Option (Callback W)

-- The zero time, the first instant of the year 1; times are counted from the Unix epoch.
abbrev pub zero_time : ℤ
zero_time = negsuc (62135596800000000000 - 1)

pub data SessionError : Type 0 where
  locked_without_callback unknown_without_callback unlock_failed validation_failed : SessionError

or_default : Option Config → Config
or_default none = default_config
or_default (some c) = c

-- What a validation leaves: the manager, the rest of the program, and the error.
abbrev pub Outcome {ℓ} : Type ℓ → Type ℓ
Outcome W = Manager W × W × Option SessionError

unfoldable pub is_unknown : SessionState → Bool
is_unknown unknown = true
is_unknown authenticated = false
is_unknown locked = false
is_unknown expired = false

module _ {ℓ} {W : Type ℓ} where
  unfoldable pub new_manager : Option Config → ℤ → Manager W
  unfolding or_default
  new_manager config now = record {
    config = or_default config;
    state = unknown;
    last_activity = now;
    locked_at = zero_time;
    lock_callback = none;
    unlock_callback = none;
  }

  unfoldable pub set_callbacks : Manager W → Callback W → Callback W → Manager W
  set_callbacks m lock_fn unlock_fn = record m {
    lock_callback = some lock_fn;
    unlock_callback = some unlock_fn;
  }

  unfoldable pub get_info : Manager W → SessionInfo
  get_info m = record {
    state = m.state;
    last_activity = m.last_activity;
    idle_timeout = m.config.session_idle_timeout;
    locked_at = m.locked_at;
  }

  unfoldable pub update_activity : Manager W → ℤ → Manager W
  unfolding is_active
  update_activity m now = if is_active m.state then record m { last_activity = now } else m

  unfoldable pub call : Option (Callback W) → W → W
  call none w = w
  call (some f) w = (f w).1

  -- The error of the callback is only logged.
  unfoldable pub execute_lock_callback : Manager W → W → W
  unfolding call
  execute_lock_callback m w = call m.lock_callback w

  unfoldable pub lock_at : Manager W → ℤ → Manager W
  lock_at m now = record m { state = locked; locked_at = now }

  -- Locks, and runs the callback.
  unfoldable pub lock_session : Manager W × W → ℤ → Manager W × W
  unfolding lock_at execute_lock_callback
  lock_session (m, w) now = (lock_at m now, execute_lock_callback m w)

  mark_from : SessionState → Manager W × W → ℤ → Manager W × W
  unfolding lock_session
  mark_from locked r now = r
  mark_from unknown r now = lock_session r now
  mark_from authenticated r now = lock_session r now
  mark_from expired r now = lock_session r now

  unfoldable pub mark_locked : Manager W × W → ℤ → Manager W × W
  unfolding mark_from
  mark_locked r now = mark_from r.0.state r now

  unfoldable pub mark_authenticated : Manager W → ℤ → Manager W
  mark_authenticated m now = record m {
    state = authenticated;
    last_activity = now;
    locked_at = zero_time;
  }

  -- `now` is what `time.Since` reads, `now'` the time of the lock.
  unfoldable pub check_idle_timeout : Manager W × W → ℤ → ℤ → Manager W × W
  unfolding lock_session is_active since
  check_idle_timeout r now now' =
      if is_active r.0.state
      then (if ltb_ℤ (pos 0) r.0.config.session_idle_timeout
            && ltb_ℤ r.0.config.session_idle_timeout (since now r.0.last_activity)
          then lock_session r now'
          else r)
      else r

  unfoldable pub after_unlock : Manager W → ℤ → Bool × W → Outcome W
  unfolding mark_authenticated
  after_unlock m now (true, w) = (mark_authenticated m now, w, none)
  after_unlock m now (false, w) = (m, w, some unlock_failed)

  unfoldable pub attempt_with : Option (Callback W) → Manager W → W → ℤ → Outcome W
  unfolding after_unlock
  attempt_with none m w now = (m, w, some locked_without_callback)
  attempt_with (some f) m w now = after_unlock m now (f w)

  unfoldable pub attempt_unlock : Manager W → W → ℤ → Outcome W
  unfolding attempt_with
  attempt_unlock m w now = attempt_with m.unlock_callback m w now

  unfoldable pub after_determine : Manager W → ℤ → Bool × W → Outcome W
  unfolding mark_authenticated lock_at
  after_determine m now (true, w) = (mark_authenticated m now, w, none)
  after_determine m now (false, w) = (lock_at m now, w, some unlock_failed)

  unfoldable pub determine_with : Option (Callback W) → Manager W → W → ℤ → Outcome W
  unfolding after_determine lock_at
  determine_with none m w now = (lock_at m now, w, some unknown_without_callback)
  determine_with (some f) m w now = after_determine m now (f w)

  -- The lock callback is not run here.
  unfoldable pub determine_initial_state : Manager W → W → ℤ → Outcome W
  unfolding determine_with
  determine_initial_state m w now = determine_with m.unlock_callback m w now

  unfoldable pub validate_session : Manager W → W → ℤ → Outcome W
  unfolding is_active requires_unlock is_unknown attempt_unlock determine_initial_state
  validate_session m w now =
      if is_active m.state
      then (m, w, none)
      else if requires_unlock m.state
      then attempt_unlock m w now
      else if is_unknown m.state
      then determine_initial_state m w now
      else (m, w, some validation_failed)
