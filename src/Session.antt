-- ===== src/Session.antt =====
-- internal/session: the states of the 1Password session, its configuration and its manager.
pub mod Config
pub mod Manager
use opx.Prelude.{Bool, true, false, ◌||◌, not, if◌then◌else◌}
use opx.Prelude.Int.{ℤ, pos, ◌-ℤ◌, ltb_ℤ, leb_ℤ, saturate64, wrap64}
use opx.Prelude.Bytes.{Bytes, codes}

-- state.go
pub data SessionState : Type 0 where
  unknown authenticated locked expired : SessionState

unfoldable pub state_text : SessionState → Bytes
state_text unknown = codes "unknown"
state_text authenticated = codes "authenticated"
state_text locked = codes "locked"
state_text expired = codes "expired"

unfoldable pub is_active : SessionState → Bool
is_active authenticated = true
is_active unknown = false
is_active locked = false
is_active expired = false

unfoldable pub requires_unlock : SessionState → Bool
requires_unlock unknown = false
requires_unlock authenticated = false
requires_unlock locked = true
requires_unlock expired = true

-- Times and durations are in nanoseconds; `time.Since` saturates.
unfoldable pub since : ℤ → ℤ → ℤ
since now t = saturate64 (now -ℤ t)

pub record SessionInfo : Type 0 where
  pub state : SessionState
  pub last_activity : ℤ
  pub idle_timeout : ℤ
  pub locked_at : ℤ

unfoldable pub time_until_lock : SessionInfo → ℤ → ℤ
unfolding is_active since
time_until_lock si now =
    if not (is_active si.state) || leb_ℤ si.idle_timeout (pos 0)
    then pos 0
    else (let remaining = wrap64 (si.idle_timeout -ℤ since now si.last_activity) in
        if ltb_ℤ remaining (pos 0) then pos 0 else remaining)

unfoldable pub is_idle : SessionInfo → ℤ → Bool
unfolding since
is_idle si now =
    if leb_ℤ si.idle_timeout (pos 0)
    then false
    else ltb_ℤ si.idle_timeout (since now si.last_activity)
