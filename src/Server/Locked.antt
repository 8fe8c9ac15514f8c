-- ===== src/Server/Locked.antt =====
-- The lock of the session and the cache: while the session is not authenticated, the cache of the
-- daemon is empty. The histories are in Locked/Histories.
pub mod Histories
pub mod Race
use mathlib.Core.Path.{subst}
use opx.Prelude.{
  ℕ, ◌≡◌, ◌≢◌, ◌∙◌, refl, sym, ap, Bool, true, false, Option, none, some, List, [], ◌∷◌, arith,
  Bool-cases, Option-cases, inl, inr, if◌then◌else◌,
}
use opx.Prelude.Int.{ℤ, pos, ltb_ℤ}
use opx.Prelude.Bytes.{Bytes}
use opx.Cache.{
  Cache, Found, get, set_value, inc_hit, inc_miss, inc_in_flight, dec_in_flight, clear,
  cleanup_expired,
}
use opx.Cache.Ownership.{IsValid, Call, step-IsValid, leave, set_value-IsValid, cleanups, clears}
use opx.Cache.Refinement.{clear_lem}
use opx.Session.{SessionState, unknown, authenticated, locked, expired, is_active, requires_unlock}
use opx.Session.Manager.{
  Manager, SessionError, Outcome, validate_session, is_unknown, after_unlock, after_determine,
  attempt_unlock, attempt_with, determine_initial_state, determine_with, check_idle_timeout,
  update_activity,
}
use opx.Security.{PeerInfo}
use opx.Protocol.{ReadResponse}
use opx.Backend.{Result, ok, err, Backend}
use opx.Daemon.{
  World, Daemon, Op, clear_cache, validate_current_session, session_aware, plain_op_cli, touch,
  after_read, validated, read_in_session,
}
use opx.Server.{
  Server, Clock, cache_key, on_cache, read_one_with_flags, read_granted, read_found, check_access,
  fly, fly_found, store_result, leaving,
}
use opx.Server.Reads.{check_access_lem}

module _ {E : Type 0} (op : Op E) where
  -- What holds of a manager with the callbacks of the server, and of the rest of the daemon.
  pub record IsSecure (m : Manager (World E)) (w : World E) : Type 0 where
    pub lock_set : m.lock_callback ≡ some (clear_cache op)
    pub unlock_set : m.unlock_callback ≡ some (validate_current_session op)
    pub valid : IsValid w.cache
    pub empty : m.state ≢ authenticated → w.cache.entries ≡ []

  abbrev pub Guarded : Option (Manager (World E)) → World E → Type 0
  Guarded none w = ⊥
  Guarded (some m) w = IsSecure m w

  abbrev IsOpen : Option (Manager (World E)) → Type 0
  IsOpen none = ⊥
  IsOpen (some m) = m.state ≡ authenticated

  -- The unlock callback leaves the cache alone.
  unlock-cache : (w : World E) → (validate_current_session op w).1.cache ≡ w.cache
  unfolding validate_current_session
  unlock-cache w = refl

  -- A validation leaves the cache alone, and where it has no error the session is authenticated.
  abbrev pub Validated : Outcome (World E) → Type 0
  Validated (m, w', none) = IsSecure m w' × (m.state ≡ authenticated)
  Validated (m, w', some e) = IsSecure m w'

  -- A state in which the cache is that of `w`.
  kept :
      (m m' : Manager (World E)) (w w' : World E)
      → IsSecure m w
      → m'.lock_callback ≡ m.lock_callback
      → m'.unlock_callback ≡ m.unlock_callback
      → w'.cache ≡ w.cache
      → (m'.state ≢ authenticated → w.cache.entries ≡ [])
      → IsSecure m' w'
  kept m m' w w' h l u c e = record {
    lock_set = l ∙ h.lock_set;
    unlock_set = u ∙ h.unlock_set;
    valid = rw c h.valid;
    empty = λ ne. ap (λ (c : Cache). c.entries) c ∙ e ne;
  }

  after_unlock-IsSecure :
      (m : Manager (World E)) (w : World E) (now : ℤ) (r : Bool × World E)
      → r.1.cache ≡ w.cache
      → IsSecure m w
      → Validated (after_unlock m now r)
  unfolding after_unlock
  after_unlock-IsSecure m w now (true, w') c h =
      (kept m _ w w' h refl refl c (λ ne. absurd (ne refl)), refl)
  after_unlock-IsSecure m w now (false, w') c h = kept m m w w' h refl refl c h.empty

  after_determine-IsSecure :
      (m : Manager (World E)) (w : World E) (now : ℤ) (r : Bool × World E)
      → r.1.cache ≡ w.cache
      → m.state ≢ authenticated
      → IsSecure m w
      → Validated (after_determine m now r)
  unfolding after_determine
  after_determine-IsSecure m w now (true, w') c ne h =
      (kept m _ w w' h refl refl c (λ ne. absurd (ne refl)), refl)
  after_determine-IsSecure m w now (false, w') c ne h =
      kept m _ w w' h refl refl c (λ _. h.empty ne)

  attempt-IsSecure :
      (m : Manager (World E)) (w : World E) (now : ℤ)
      → IsSecure m w
      → Validated (attempt_unlock m w now)
  unfolding attempt_unlock attempt_with
  attempt-IsSecure m w now h =
      subst (λ u. Validated (attempt_with u m w now)) (sym h.unlock_set)
        (after_unlock-IsSecure m w now (validate_current_session op w) (unlock-cache w) h)

  determine-IsSecure :
      (m : Manager (World E)) (w : World E) (now : ℤ)
      → m.state ≢ authenticated
      → IsSecure m w
      → Validated (determine_initial_state m w now)
  unfolding determine_initial_state determine_with
  determine-IsSecure m w now ne h =
      subst (λ u. Validated (determine_with u m w now)) (sym h.unlock_set)
        (after_determine-IsSecure m w now (validate_current_session op w) (unlock-cache w) ne h)

  pub validate-IsSecure :
      (m : Manager (World E)) (w : World E) (now : ℤ) (st : SessionState)
      → m.state ≡ st
      → IsSecure m w
      → Validated (validate_session m w now)
  unfolding validate_session
  validate-IsSecure m w now authenticated e h =
      let active : is_active m.state ≡ true = ap is_active e in rw active (h, e)
  validate-IsSecure m w now unknown e h =
      let active : is_active m.state ≡ false = ap is_active e in
      let closed : requires_unlock m.state ≡ false = ap requires_unlock e in
      let new : is_unknown m.state ≡ true = ap is_unknown e in
      rw (active, closed, new) (determine-IsSecure m w now (λ q. cc) h)
  validate-IsSecure m w now locked e h =
      let active : is_active m.state ≡ false = ap is_active e in
      let closed : requires_unlock m.state ≡ true = ap requires_unlock e in
      rw (active, closed) (attempt-IsSecure m w now h)
  validate-IsSecure m w now expired e h =
      let active : is_active m.state ≡ false = ap is_active e in
      let closed : requires_unlock m.state ≡ true = ap requires_unlock e in
      rw (active, closed) (attempt-IsSecure m w now h)

  -- A change of the cache that adds no entry.
  abbrev Shrinks : Cache → Cache → Type 0
  Shrinks c c' = (c'.entries ≡ c.entries) × (IsValid c → IsValid c')

  on_cache-Guarded :
      (m : Option (Manager (World E))) (w : World E) (c' : Cache)
      → (c'.entries ≡ w.cache.entries)
      → IsValid c'
      → Guarded m w
      → Guarded m (record w { cache = c' })
  on_cache-Guarded none w c' e v h = h
  on_cache-Guarded (some m) w c' e v h = record {
    lock_set = h.lock_set;
    unlock_set = h.unlock_set;
    valid = v;
    empty = λ ne. e ∙ h.empty ne;
  }

  Guarded-IsValid : (m : Option (Manager (World E))) (w : World E) → Guarded m w → IsValid w.cache
  Guarded-IsValid none w h = absurd h
  Guarded-IsValid (some m) w h = h.valid

  -- An authenticated session lets any cache be.
  on_cache-open :
      (m : Option (Manager (World E))) (w : World E) (c' : Cache)
      → IsOpen m
      → IsValid c'
      → Guarded m w
      → Guarded m (record w { cache = c' })
  on_cache-open none w c' o v h = h
  on_cache-open (some m) w c' o v h = record {
    lock_set = h.lock_set;
    unlock_set = h.unlock_set;
    valid = v;
    empty = λ ne. absurd (ne o);
  }

  entries-leave : (c : Cache) → (dec_in_flight c).entries ≡ c.entries
  unfolding dec_in_flight
  entries-leave c = elim (Bool-cases (ltb_ℤ (pos 0) c.inflight)) [
    | inl q ↦ rw q refl
    | inr q ↦ rw q refl
  ]

  -- The backend: it leaves the cache and the session alone.
  abbrev pub Keeps : Backend (Daemon E) → Type 0
  Keeps b =
      (ref : Bytes) (flags : List Bytes) (now : ℤ) (d : Daemon E)
      → let d' = (b.read_ref_with_flags ref flags now d).1 in
        (d'.session ≡ d.session) × (d'.world.cache ≡ d.world.cache)

  -- After a read of the backend: where it gives a value the session is authenticated.
  abbrev Answered : Result Bytes × Daemon E → Type 0
  Answered (ok v, d) = Guarded d.session d.world × IsOpen d.session
  Answered (err e, d) = Guarded d.session d.world

  same_cache :
      (m : Option (Manager (World E))) (w w' : World E)
      → w'.cache ≡ w.cache
      → Guarded m w
      → Guarded m w'
  same_cache none w w' c h = h
  same_cache (some m) w w' c h = kept m m w w' h refl refl c h.empty

  touch-Guarded :
      (now : ℤ) (m : Option (Manager (World E))) (w : World E)
      → Guarded m w
      → IsOpen m
      → Guarded (touch now m) w × IsOpen (touch now m)
  unfolding touch update_activity
  touch-Guarded now none w h o = (h, o)
  touch-Guarded now (some m) w h o = elim (Bool-cases (is_active m.state)) [
    | inl a ↦ rw a (kept m _ w w h refl refl refl h.empty, o)
    | inr a ↦ rw a (h, o)
  ]

  -- What a handler keeps.
  abbrev pub DaemonGuarded : Daemon E → Type 0
  DaemonGuarded d = Guarded d.session d.world

  module _ (inner : Backend (Daemon E)) (keeps : Keeps inner) where
    after_read-Answered :
        (now : ℤ) (r : Result Bytes × Daemon E)
        → Guarded r.1.session r.1.world
        → IsOpen r.1.session
        → Answered (after_read now r)
    unfolding after_read
    after_read-Answered now (ok v, d) h o = touch-Guarded now d.session d.world h o
    after_read-Answered now (err e, d) h o = h

    validated-Answered :
        (ref : Bytes) (flags : List Bytes) (now : ℤ) (d : Daemon E) (r : Outcome (World E))
        → Validated r
        → Answered
            (validated inner ref flags now (record d { session = some r.0; world = r.1 }) r.2)
    unfolding validated
    validated-Answered ref flags now d (m, w, some e) h = h
    validated-Answered ref flags now d (m, w, none) (h, o) =
        let d1 : Daemon E = record d { session = some m; world = w } in
        let (s, c) = keeps ref flags now d1 in
        after_read-Answered now (inner.read_ref_with_flags ref flags now d1)
          (rw s (same_cache (some m) w _ c h)) (rw s o)

    in_session-Answered :
        (ref : Bytes) (flags : List Bytes) (now : ℤ) (d : Daemon E) (m : Option (Manager (World E)))
        → Guarded m d.world
        → Answered (read_in_session inner ref flags now d m)
    unfolding read_in_session
    in_session-Answered ref flags now d none h = absurd h
    in_session-Answered ref flags now d (some m) h =
        validated-Answered ref flags now d (validate_session m d.world now)
          (validate-IsSecure m d.world now m.state refl h)

    module _ (s : Server E) (aware : s.backend ≡ session_aware inner) where
      store-Guarded :
          (key ref : Bytes) (t : Clock) (r : Result Bytes × Daemon E)
          → Answered r
          → DaemonGuarded (store_result key ref t r).1
      unfolding store_result on_cache
      store-Guarded key ref t (err e, d) h = h
      store-Guarded key ref t (ok v, d) (h, o) =
          on_cache-open d.session d.world _ o
            (set_value-IsValid d.world.cache key v t.stored t.stored_again
              (Guarded-IsValid d.session d.world h))
            h

      read_backend-Answered :
          (ref : Bytes) (flags : List Bytes) (now : ℤ) (d : Daemon E)
          → DaemonGuarded d
          → Answered (s.backend.read_ref_with_flags ref flags now d)
      unfolding session_aware
      read_backend-Answered ref flags now d h =
          rw aware (in_session-Answered ref flags now d d.session h)

      fly-Guarded :
          (key ref : Bytes) (flags : List Bytes) (t : Clock) (d : Daemon E)
          → DaemonGuarded d
          → DaemonGuarded (fly s key ref flags t d).1
      unfolding fly on_cache inc_hit
      fly-Guarded key ref flags t d h = elim (Option-cases (get d.world.cache key t.looked_again)) [
        | inl e ↦
            rw (e, fly_found)
              (store-Guarded key ref t (s.backend.read_ref_with_flags ref flags t.called d)
                (read_backend-Answered ref flags t.called d h))
        | inr (r, e) ↦
            rw (e, fly_found)
              (on_cache-Guarded d.session d.world _ refl (Guarded-IsValid d.session d.world h) h)
      ]

      leaving-Guarded :
          (r : Result ReadResponse × Daemon E) → DaemonGuarded r.1 → DaemonGuarded (leaving r).1
      unfolding leaving on_cache
      leaving-Guarded (r, d) h =
          on_cache-Guarded d.session d.world (dec_in_flight d.world.cache)
            (entries-leave d.world.cache)
            (step-IsValid d.world.cache leave (Guarded-IsValid d.session d.world h)) h

      found-Guarded :
          (key ref : Bytes) (flags : List Bytes) (t : Clock) (d : Daemon E) (o : Option Found)
          → DaemonGuarded d
          → DaemonGuarded (read_found s key ref flags t d o).1
      unfolding read_found on_cache inc_hit inc_in_flight inc_miss
      found-Guarded key ref flags t d (some r) h =
          on_cache-Guarded d.session d.world _ refl (Guarded-IsValid d.session d.world h) h
      found-Guarded key ref flags t d none h =
          let entered = on_cache (λ c. inc_in_flight (inc_miss c)) d in
          leaving-Guarded (fly s key ref flags t entered) (
            fly-Guarded key ref flags t entered
              (on_cache-Guarded d.session d.world _ refl (Guarded-IsValid d.session d.world h) h))

      granted-Guarded :
          (ref : Bytes) (flags : List Bytes) (t : Clock) (r : Bool × Daemon E)
          → DaemonGuarded r.1
          → DaemonGuarded (read_granted s ref flags t r).1
      unfolding read_granted
      granted-Guarded ref flags t (false, d) h = h
      granted-Guarded ref flags t (true, d) h =
          found-Guarded (cache_key ref flags) ref flags t d _ h

      pub read-Guarded :
          (peer : Option PeerInfo) (ref : Bytes) (flags : List Bytes) (t : Clock) (d : Daemon E)
          → DaemonGuarded d
          → DaemonGuarded (read_one_with_flags s peer ref flags t d).1
      unfolding read_one_with_flags
      read-Guarded peer ref flags t d h =
          let (_, w, m) = check_access_lem s peer ref t.decided d in
          granted-Guarded ref flags t (check_access s peer ref t.decided d) (rw (w, m) h)
