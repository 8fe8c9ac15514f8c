-- ===== src/Session/Manager/States.antt =====
-- Which states the manager reaches, and what a validation means.
use opx.Prelude.{◌≡◌, ◌≢◌, ◌↔◌, refl, Option, none, List, [], ◌∷◌, arith}
use opx.Prelude.Int.{ℤ}
use opx.Session.{SessionState, unknown, authenticated, locked, expired}
use opx.Session.Config.{Config}
use opx.Session.Manager.{
  Manager, Callback, Outcome, new_manager, set_callbacks, update_activity, mark_locked,
  mark_authenticated, check_idle_timeout, validate_session, zero_time,
}

-- The methods, each with the times that it reads.
pub data Call : Type 0 where
  activity authenticates : ℤ → Call
  locks : ℤ → Call
  checks : ℤ → ℤ → Call
  validates : ℤ → Call

module _ {W : Type 0} where
  -- A validation has no error exactly when the session is authenticated afterwards, for every
  -- manager, whatever its callbacks.
  pub validate-authenticated_iff :
      (m : Manager W) (w : W) (now : ℤ)
      → let r = validate_session m w now in (r.2 ≡ none) ↔ (r.0.state ≡ authenticated)
  unfolding validate_session
  validate-authenticated_iff m w now = go m.state refl
    where
      go :
          (s : SessionState)
          → m.state ≡ s
          → let r = validate_session m w now in (r.2 ≡ none) ↔ (r.0.state ≡ authenticated)
      go authenticated e = ground arith
      go unknown e = ground arith
      go locked e = ground arith
      go expired e = ground arith

  -- An expired session is never seen, and the time of the lock is set exactly while one is locked.
  pub record IsSane (m : Manager W) : Type 0 where
    pub never_expired : m.state ≢ expired
    pub unlocked_time : m.state ≢ locked → m.locked_at ≡ zero_time

  abbrev without_error : Outcome W → Manager W × W
  without_error r = (r.0, r.1)

  abbrev pub step : Manager W × W → Call → Manager W × W
  step r (activity now) = (update_activity r.0 now, r.1)
  step r (authenticates now) = (mark_authenticated r.0 now, r.1)
  step r (locks now) = mark_locked r now
  step r (checks now now') = check_idle_timeout r now now'
  step r (validates now) = without_error (validate_session r.0 r.1 now)

  abbrev pub run : Manager W × W → List Call → Manager W × W
  run r [] = r
  run r (c ∷ cs) = run (step r c) cs

  validate-IsSane :
      (m : Manager W) (w : W) (now : ℤ) (s : SessionState)
      → m.state ≡ s
      → IsSane m
      → IsSane (validate_session m w now).0
  unfolding validate_session
  validate-IsSane m w now authenticated e h = ground arith
  validate-IsSane m w now unknown e h = ground arith
  validate-IsSane m w now locked e h = ground arith
  validate-IsSane m w now expired e h = absurd (h.never_expired e)

  locks-IsSane :
      (r : Manager W × W) (now : ℤ) (s : SessionState)
      → r.0.state ≡ s
      → IsSane r.0
      → IsSane (mark_locked r now).0
  unfolding mark_locked
  locks-IsSane r now authenticated e h = ground arith
  locks-IsSane r now unknown e h = ground arith
  locks-IsSane r now locked e h = ground arith
  locks-IsSane r now expired e h = absurd (h.never_expired e)

  step-IsSane : (r : Manager W × W) (c : Call) → IsSane r.0 → IsSane (step r c).0
  unfolding update_activity mark_authenticated check_idle_timeout
  step-IsSane r (activity now) h = ground arith
  step-IsSane r (authenticates now) h = ground arith
  step-IsSane r (locks now) h = locks-IsSane r now r.0.state refl h
  step-IsSane r (checks now now') h = ground arith
  step-IsSane r (validates now) h = validate-IsSane r.0 r.1 now r.0.state refl h

  run-IsSane : (r : Manager W × W) (cs : List Call) → IsSane r.0 → IsSane (run r cs).0
  run-IsSane r [] h = h
  run-IsSane r (c ∷ cs) h = run-IsSane (step r c) cs (step-IsSane r c h)

  -- After any calls on a new manager with any callbacks, the state is not `SessionExpired`, and
  -- while the session is not locked its time of locking is the zero time.
  pub run-new_manager-IsSane :
      (config : Option Config) (now : ℤ) (lock_fn unlock_fn : Callback W) (w : W) (cs : List Call)
      → IsSane (run (set_callbacks (new_manager config now) lock_fn unlock_fn, w) cs).0
  unfolding set_callbacks new_manager
  run-new_manager-IsSane config now lock_fn unlock_fn w cs =
      run-IsSane (set_callbacks (new_manager config now) lock_fn unlock_fn, w) cs
        (record { never_expired = λ e. cc; unlocked_time = λ n. refl })
