-- ===== src/Daemon/Callbacks.antt =====
-- Which callbacks of the session manager run in the daemon.
use opx.Prelude.{◌≡◌, refl}
use opx.Cache.{clear}
use opx.Session.Manager.{Manager, set_callbacks, execute_lock_callback}
use opx.Daemon.{World, Op, setup_session_lock_callback, new_session_aware_op_cli}

module _ {E : Type 0} (op : Op E) where
  -- `Serve` replaces the callbacks that `NewSessionAwareOpCLI` has set: when the session is locked,
  -- the cache is cleared, and the program `op` is not run, so nothing outside is signed out.
  pub lock_leaves_outside :
      (m : Manager (World E)) (w : World E)
      → let served = setup_session_lock_callback op (new_session_aware_op_cli op m).0 in
        ((execute_lock_callback served w).outside ≡ w.outside)
        × ((execute_lock_callback served w).cache ≡ (clear w.cache).0)
  unfolding setup_session_lock_callback new_session_aware_op_cli set_callbacks execute_lock_callback
  lock_leaves_outside m w = (refl, refl)
