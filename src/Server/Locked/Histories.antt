-- ===== src/Server/Locked/Histories.antt =====
-- What the handlers, the monitor of the session and the clean-up of the cache do to the daemon, one
-- after the other.
use mathlib.Core.Path.{subst}
use opx.Prelude.{
  ◌≡◌, ◌≢◌, ◌⊎◌, ◌∙◌, refl, sym, ◌&&◌, Option, none, some, List, [], ◌∷◌, arith, Bool-cases, inl,
  inr,
}
use opx.Prelude.Int.{ℤ}
use opx.Prelude.Bytes.{Bytes, codes, ◌=ᵇ◌}
use opx.Dict.{keys}
use opx.Cache.{Cache, new_cache, cleanup_expired, evict_where, expired as entry_expired}
use opx.Cache.Ownership.{step-IsValid, cleanups, clears, new_cache-IsValid}
use opx.Cache.Refinement.{clear_lem}
use opx.Session.{SessionState, authenticated, locked, is_active, is_idle}
use opx.Session.Config.{Config}
use opx.Session.Manager.{
  Manager, SessionError, Outcome, new_manager, set_callbacks, validate_session, check_idle_timeout,
  execute_lock_callback, call, get_info,
}
use opx.Session.Manager.Idle.{check_idle-is_idle}
use opx.Security.{PeerInfo}
use opx.Backend.{Result, ok, err}
use opx.Backend.OpCli.{op_cli, op_args, run_op}
use opx.Daemon.{
  World, Daemon, Op, clear_cache, setup_session_lock_callback, session_aware, plain_op_cli,
  new_session_aware_op_cli, on_outside,
}
use opx.Server.{Server, Clock, on_cache, read_one_with_flags}
use opx.Server.Handlers.{handle_session_unlock, unlock_with}
use opx.Server.Locked.{
  IsSecure, Guarded, Keeps, DaemonGuarded, Validated, validate-IsSecure, read-Guarded,
}

-- One thing that happens, with the times that the code reads.
pub data Event : Type 0 where
  reads : Option PeerInfo → Bytes → List Bytes → Clock → Event
  unlocks : (SessionError → Bytes) → Bytes → ℤ → Event
  monitors : ℤ → ℤ → Event
  cleans : ℤ → Event

module _ {E : Type 0} where
  -- `checkIdleTimeout` on the daemon's manager.
  unfoldable pub monitor_session : ℤ → ℤ → Daemon E → Option (Manager (World E)) → Daemon E
  monitor_session now now' d none = d
  monitor_session now now' d (some m) =
      let (m', w) = check_idle_timeout (m, d.world) now now' in
      record d { session = some m'; world = w }

  -- One tick of `startCacheCleanup`.
  unfoldable pub clean_cache : ℤ → Daemon E → Daemon E
  unfolding on_cache
  clean_cache now d = on_cache (λ c. (cleanup_expired c now).0) d

  unfoldable pub happen : Server E → Daemon E → Event → Daemon E
  unfolding monitor_session clean_cache
  happen s d (reads peer ref flags t) = (read_one_with_flags s peer ref flags t d).1
  happen s d (unlocks describe method now) = (handle_session_unlock describe method now d).1
  happen s d (monitors now now') = monitor_session now now' d d.session
  happen s d (cleans now) = clean_cache now d

  unfoldable pub history : Server E → Daemon E → List Event → Daemon E
  unfolding happen
  history s d [] = d
  history s d (e ∷ es) = history s (happen s d e) es

module _ {E : Type 0} (op : Op E) where
  -- The daemon when `Serve` begins.
  unfoldable pub started : Option Config → ℤ → ℤ → E → Daemon E
  started config now ttl e = record {
    session =
        some
          (setup_session_lock_callback op (new_session_aware_op_cli op (new_manager config now)).0);
    world = record { cache = new_cache ttl; outside = e };
    audit_log = [];
  }

  run_op-keeps :
      (r : Result (List Bytes)) (d : Daemon E)
      → let d' = (run_op (on_outside op) r d).1 in
        (d'.session ≡ d.session) × (d'.world.cache ≡ d.world.cache)
  unfolding run_op on_outside
  run_op-keeps (err e) d = (refl, refl)
  run_op-keeps (ok args) d = (refl, refl)

  plain_op_cli-Keeps : Keeps op (plain_op_cli op)
  unfolding plain_op_cli op_cli
  plain_op_cli-Keeps ref flags now d = run_op-keeps (op_args ref flags) d

  pub locking-IsSecure :
      (m : Manager (World E)) (w : World E) (now : ℤ)
      → IsSecure op m w
      → IsSecure op (record m { state = locked; locked_at = now }) (execute_lock_callback m w)
  unfolding execute_lock_callback call clear_cache
  locking-IsSecure m w now h =
      subst (λ u. IsSecure op (record m { state = locked; locked_at = now }) (call u w))
        (sym h.lock_set)
        (record {
          lock_set = h.lock_set;
          unlock_set = h.unlock_set;
          valid = step-IsValid w.cache clears h.valid;
          empty = λ _. (clear_lem w.cache h.valid).0;
        })

  Validated-IsSecure : (r : Outcome (World E)) → Validated op r → IsSecure op r.0 r.1
  Validated-IsSecure (m, w, none) h = h.0
  Validated-IsSecure (m, w, some e) h = h

  cleanup-entries : (c : Cache) (now : ℤ) → c.entries ≡ [] → (cleanup_expired c now).0.entries ≡ []
  unfolding cleanup_expired evict_where keys
  cleanup-entries c now h =
      subst (λ d. (evict_where (entry_expired now) (keys d) (c, 0)).0.entries ≡ []) (sym h) h

  unlock-Guarded :
      (describe : SessionError → Bytes) (now : ℤ) (d : Daemon E) (m : Option (Manager (World E)))
      → d.session ≡ m
      → Guarded op m d.world
      → DaemonGuarded op (unlock_with describe now d m).1
  unfolding unlock_with
  unlock-Guarded describe now d none e h = absurd h
  unlock-Guarded describe now d (some m) e h =
      Validated-IsSecure (validate_session m d.world now)
        (validate-IsSecure op m d.world now m.state refl h)

  unlocks-Guarded :
      (describe : SessionError → Bytes) (method : Bytes) (now : ℤ) (d : Daemon E)
      → DaemonGuarded op d
      → DaemonGuarded op (handle_session_unlock describe method now d).1
  unfolding handle_session_unlock
  unlocks-Guarded describe method now d h = elim (Bool-cases (method =ᵇ codes "POST")) [
    | inl p ↦ rw p (unlock-Guarded describe now d d.session refl h)
    | inr p ↦ rw p h
  ]

  checked-IsSecure :
      (m : Manager (World E)) (w : World E) (now now' : ℤ)
      → IsSecure op m w
      → IsSecure op (check_idle_timeout (m, w) now now').0 (check_idle_timeout (m, w) now now').1
  checked-IsSecure m w now now' h =
      let r = check_idle_timeout (m, w) now now' in
      elim (Bool-cases (is_active m.state && is_idle (get_info m) now)) [
        | inl idle ↦
            subst (λ (r : Manager (World E) × World E). IsSecure op r.0 r.1)
              (sym (check_idle-is_idle m w now now' ∙ rw idle refl)) (locking-IsSecure m w now' h)
        | inr idle ↦
            subst (λ (r : Manager (World E) × World E). IsSecure op r.0 r.1)
              (sym (check_idle-is_idle m w now now' ∙ rw idle refl)) h
      ]

  monitor-Guarded :
      (now now' : ℤ) (d : Daemon E) (m : Option (Manager (World E)))
      → Guarded op m d.world
      → DaemonGuarded op (monitor_session now now' d m)
  unfolding monitor_session
  monitor-Guarded now now' d none h = absurd h
  monitor-Guarded now now' d (some m) h = checked-IsSecure m d.world now now' h

  clean-Guarded :
      (now : ℤ) (m : Option (Manager (World E))) (w : World E)
      → Guarded op m w
      → Guarded op m (record w { cache = (cleanup_expired w.cache now).0 })
  clean-Guarded now none w h = h
  clean-Guarded now (some m) w h = record {
    lock_set = h.lock_set;
    unlock_set = h.unlock_set;
    valid = step-IsValid w.cache (cleanups now) h.valid;
    empty = λ ne. cleanup-entries w.cache now (h.empty ne);
  }

  pub started-Guarded :
      (config : Option Config) (now ttl : ℤ) (e : E) → DaemonGuarded op (started config now ttl e)
  unfolding started setup_session_lock_callback new_session_aware_op_cli set_callbacks new_manager
  started-Guarded config now ttl e = record {
    lock_set = refl;
    unlock_set = refl;
    valid = new_cache-IsValid ttl;
    empty = λ _. refl;
  }

  module _ (s : Server E) (aware : s.backend ≡ session_aware (plain_op_cli op)) where
    happen-Guarded :
        (d : Daemon E) (e : Event) → DaemonGuarded op d → DaemonGuarded op (happen s d e)
    unfolding happen clean_cache on_cache
    happen-Guarded d (reads peer ref flags t) h =
        read-Guarded op (plain_op_cli op) plain_op_cli-Keeps s aware peer ref flags t d h
    happen-Guarded d (unlocks describe method now) h = unlocks-Guarded describe method now d h
    happen-Guarded d (monitors now now') h = monitor-Guarded now now' d d.session h
    happen-Guarded d (cleans now) h = clean-Guarded now d.session d.world h

    history-Guarded :
        (es : List Event) (d : Daemon E) → DaemonGuarded op d → DaemonGuarded op (history s d es)
    unfolding history
    history-Guarded [] d h = h
    history-Guarded (e ∷ es) d h = history-Guarded es (happen s d e) (happen-Guarded d e h)

  -- A session that is authenticated, or an empty cache.
  abbrev pub IsLockedEmpty : Option (Manager (World E)) → World E → Type 0
  IsLockedEmpty none w = ⊥
  IsLockedEmpty (some m) w = (m.state ≡ authenticated) ⊎ (w.cache.entries ≡ [])

  Guarded-IsLockedEmpty :
      (m : Option (Manager (World E))) (w : World E) → Guarded op m w → IsLockedEmpty m w
  Guarded-IsLockedEmpty none w h = h
  Guarded-IsLockedEmpty (some m) w h = elim (authenticated_cases m.state) [
    | inl a ↦ inl a
    | inr n ↦ inr (h.empty n)
  ]
    where
      authenticated_cases : (st : SessionState) → (st ≡ authenticated) ⊎ (st ≢ authenticated)
      authenticated_cases st = ground arith

  -- A server over the session-aware backend of `op` has, from its start on and after every sequence of reads,
  -- unlocks, checks of the monitor and clean-ups of the cache, each run to its end before the next, a session that
  -- is authenticated or an empty cache.
  pub history-IsLockedEmpty :
      (s : Server E) (config : Option Config) (now ttl : ℤ) (e : E) (es : List Event)
      → s.backend ≡ session_aware (plain_op_cli op)
      → let d = history s (started config now ttl e) es in IsLockedEmpty d.session d.world
  history-IsLockedEmpty s config now ttl e es aware =
      let d = history s (started config now ttl e) es in
      Guarded-IsLockedEmpty d.session d.world
        (history-Guarded s aware es (started config now ttl e) (started-Guarded config now ttl e))
