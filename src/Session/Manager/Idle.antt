-- ===== src/Session/Manager/Idle.antt =====
-- The idle timeout: what the monitor tests, what the status reports.
use opx.Prelude.{ℕ, ◌+◌, ◌-◌, ◌≤◌, ◌<◌, ◌^◌, ◌≡◌, true, ◌&&◌, arith, if◌then◌else◌}
use opx.Prelude.Int.{ℤ, pos, ◌-ℤ◌, ltb_ℤ, wrap64, saturate64}
use opx.Session.{SessionInfo, authenticated, locked, is_active, is_idle, time_until_lock, since}
use opx.Session.Manager.{Manager, get_info, check_idle_timeout, execute_lock_callback}

module _ {W : Type 0} where
  -- The monitor locks exactly the authenticated session that its information calls idle: then the
  -- state, the time of the lock and the effect of the lock callback change, and otherwise nothing.
  pub check_idle-is_idle :
      (m : Manager W) (w : W) (now now' : ℤ)
      → check_idle_timeout (m, w) now now' ≡ (
          if is_active m.state && is_idle (get_info m) now
          then (record m { state = locked; locked_at = now' }, execute_lock_callback m w)
          else (m, w))
  unfolding check_idle_timeout is_idle get_info
  check_idle-is_idle m w now now' = ground arith

elapsed : (a n : ℕ) → a ≤ n → n < 2 ^ 63 → since (pos n) (pos a) ≡ pos (n - a)
unfolding since saturate64 ◌-ℤ◌
elapsed a n h b = ground arith

remaining : (t d : ℕ) → t < 2 ^ 63 → d ≤ t → wrap64 (pos t -ℤ pos d) ≡ pos (t - d)
unfolding wrap64 ◌-ℤ◌
remaining t d h b = ground arith

overdue : (t d : ℕ) → d < 2 ^ 63 → t < d → ltb_ℤ (wrap64 (pos t -ℤ pos d)) (pos 0) ≡ true
unfolding wrap64 ◌-ℤ◌
overdue t d h b = ground arith

-- For times and a timeout in the range of int64, from the last activity on: the time until the lock
-- that an authenticated session reports is what is left of the timeout, and it is idle exactly when
-- more than the timeout has passed.
pub time_until_lock_lem :
    (a n t l : ℕ)
    → a ≤ n
    → n < 2 ^ 63
    → 0 < t
    → t < 2 ^ 63
    → let si : SessionInfo = record {
      state = authenticated;
      last_activity = pos a;
      idle_timeout = pos t;
      locked_at = pos l;
    } in
      (time_until_lock si (pos n) ≡ pos (t - (n - a)))
      × (is_idle si (pos n) ≡ ltb_ℤ (pos (a + t)) (pos n))
unfolding time_until_lock is_idle
time_until_lock_lem a n t l h b p q =
    rw (elapsed a n h b) (ground (arith, remaining t (n - a) q, overdue t (n - a)), ground arith)
