-- ===== src/Examples/Sessions.antt =====
-- The theorems on internal/session at concrete inputs.
use opx.Prelude.{
  ◌≡◌, ◌↔◌, ◌&&◌, refl, true, false, none, some, [], ◌∷◌, ◌-◌, ◌+◌, arith, if◌then◌else◌, Bool,
  Option,
}
use opx.Prelude.Int.{ℤ, pos, ltb_ℤ}
use opx.Prelude.Bytes.{Bytes, codes}
use opx.Session.{SessionInfo, authenticated, is_active, is_idle, time_until_lock, locked}
use opx.Session.Config.{default_config, load_config, SessionFlags}
use opx.Session.Manager.{
  Manager, Callback, new_manager, set_callbacks, get_info, check_idle_timeout,
  execute_lock_callback, validate_session,
}
use opx.Session.Manager.States.{
  validates, checks, run, IsSane, validate-authenticated_iff, run-new_manager-IsSane,
}
use opx.Session.Manager.Idle.{check_idle-is_idle, time_until_lock_lem}

-- The rest of the program is a flag that the lock callback sets.
abbrev lock_fn : Callback Bool
lock_fn w = (true, true)

abbrev unlock_fn : Callback Bool
unlock_fn w = (true, w)

abbrev fresh_manager : Manager Bool
fresh_manager = set_callbacks (new_manager none (pos 5)) lock_fn unlock_fn

abbrev open_manager : Manager Bool
open_manager = (validate_session fresh_manager false (pos 6)).0

validate-authenticated_iff_example :
    ((validate_session fresh_manager false (pos 6)).2 ≡ none)
    ↔ ((validate_session fresh_manager false (pos 6)).0.state ≡ authenticated)
validate-authenticated_iff_example = validate-authenticated_iff fresh_manager false (pos 6)

run-new_manager-IsSane_example :
    IsSane (run (fresh_manager, false) (validates (pos 6) ∷ checks (pos 99) (pos 100) ∷ [])).0
run-new_manager-IsSane_example =
    run-new_manager-IsSane none (pos 5) lock_fn unlock_fn false
      (validates (pos 6) ∷ checks (pos 99) (pos 100) ∷ [])

check_idle-is_idle_example :
    check_idle_timeout (open_manager, false) (pos 90000000000000) (pos 90000000000001) ≡ (
      if is_active open_manager.state && is_idle (get_info open_manager) (pos 90000000000000)
      then (
        record open_manager { state = locked; locked_at = pos 90000000000001 },
        execute_lock_callback open_manager false,
      )
      else (open_manager, false))
check_idle-is_idle_example =
    check_idle-is_idle open_manager false (pos 90000000000000) (pos 90000000000001)

abbrev info : SessionInfo
info = record {
  state = authenticated;
  last_activity = pos 10;
  idle_timeout = pos 30;
  locked_at = pos 0;
}

time_until_lock_lem_example :
    (time_until_lock info (pos 25) ≡ pos (30 - (25 - 10)))
    × (is_idle info (pos 25) ≡ ltb_ℤ (pos (10 + 30)) (pos 25))
time_until_lock_lem_example =
    time_until_lock_lem 10 25 30 0 (ground arith) (ground arith) (ground arith) (ground arith)

abbrev no_duration : Bytes → Option ℤ
no_duration b = none

abbrev no_env : Bytes → Bytes
no_env b = []

abbrev other_env : Bytes → Bytes
other_env b = codes "1"

loads : load_config no_duration no_env (λ c. c) ≡ some default_config
unfolding load_config
loads = refl

abbrev flags : SessionFlags
flags = record { session_timeout = pos 8; enable_session_lock = true; lock_on_auth_failure = true }
