-- ===== src/Server/Reads.antt =====
-- What a read of the server does, and to whom (`readOneWithFlags` of internal/server/server.go).
use opx.Prelude.{
  ◌≡◌, refl, ap, ◌∙◌, Bool, true, false, Option, none, some, List, Bool-cases, inl, inr,
}
use opx.Prelude.Int.{ℤ, pos, ◌+ℤ◌, ◌≤ℤ◌, ltb_ℤ}
use opx.Prelude.Bytes.{Bytes}
use opx.Cache.{
  Cache, Found, get, set_value, inc_hit, inc_miss, inc_in_flight, dec_in_flight, peek, read,
}
use opx.Cache.Ownership.{IsValid}
use opx.Cache.Refinement.{get-set_value}
use opx.Policy.{allowed}
use opx.Security.{PeerInfo}
use opx.Audit.Events.{AuditEvent}
use opx.Backend.{ok, err, access_denied, Error}
use opx.Daemon.{Daemon}
use opx.Server.{
  Server, Clock, subject_of, cache_key, from_cache_response, fresh_response, on_cache,
  validate_access, check_access, store_result, fly_found, fly, leaving, read_found, read_granted,
  read_one_with_flags, log_event,
}

pub get-dec_in_flight :
    (c : Cache) (key : Bytes) (now : ℤ) → get (dec_in_flight c) key now ≡ get c key now
unfolding get peek read dec_in_flight
get-dec_in_flight c key now = elim (Bool-cases (ltb_ℤ (pos 0) c.inflight)) [
  | inl q ↦ rw q refl
  | inr q ↦ rw q refl
]

module _ {E : Type 0} where
  log_event-keeps :
      (e : Option AuditEvent) (d : Daemon E)
      → ((log_event e d).world ≡ d.world) × ((log_event e d).session ≡ d.session)
  unfolding log_event
  log_event-keeps none d = (refl, refl)
  log_event-keeps (some e) d = (refl, refl)

  -- What the check says: without a peer, that the read is allowed.
  unfoldable pub answer : Server E → Option PeerInfo → Bytes → Bool
  answer s none ref = true
  answer s (some peer) ref = allowed s.sha256 s.policy (subject_of peer) ref

  -- The daemon after the check.
  pub check_access_lem :
      (s : Server E) (peer : Option PeerInfo) (ref : Bytes) (now : ℤ) (d : Daemon E)
      → let r = check_access s peer ref now d in
        (r.0 ≡ answer s peer ref) × (r.1.world ≡ d.world) × (r.1.session ≡ d.session)
  unfolding check_access validate_access answer
  check_access_lem s none ref now d = (refl, refl, refl)
  check_access_lem s (some peer) ref now d = let (w, m) = log_event-keeps _ d in (refl, w, m)

module _ {E : Type 0} (s : Server E) (peer : Option PeerInfo) (ref : Bytes) (flags : List Bytes)
    (t : Clock) where
  refused_by :
      (r : Bool × Daemon E) → r.0 ≡ false → read_granted s ref flags t r ≡ (err access_denied, r.1)
  unfolding read_granted
  refused_by (false, d) h = refl
  refused_by (true, d) h = cc

  granted_by :
      (r : Bool × Daemon E)
      → r.0 ≡ true
      → read_granted s ref flags t r
        ≡ read_found s
            (cache_key ref flags)
            ref
            flags
            t
            r.1
            (get r.1.world.cache (cache_key ref flags) t.looked_up)
  unfolding read_granted
  granted_by (false, d) h = cc
  granted_by (true, d) h = refl

  -- A peer whom the policy refuses gets an error, and the cache, the system outside and the session
  -- stay as they are.
  pub read_denied :
      (d : Daemon E)
      → answer s peer ref ≡ false
      → let r = read_one_with_flags s peer ref flags t d in
        (r.0 ≡ err access_denied) × (r.1.world ≡ d.world) × (r.1.session ≡ d.session)
  unfolding read_one_with_flags
  read_denied d h =
      let (a, w, m) = check_access_lem s peer ref t.decided d in
      rw (refused_by (check_access s peer ref t.decided d) (a ∙ h)) (refl, w, m)

  granted :
      (d : Daemon E)
      → answer s peer ref ≡ true
      → let d1 = (check_access s peer ref t.decided d).1 in
        read_one_with_flags s peer ref flags t d
        ≡ read_found s
            (cache_key ref flags)
            ref
            flags
            t
            d1
            (get d.world.cache (cache_key ref flags) t.looked_up)
  unfolding read_one_with_flags
  granted d h =
      let (a, w, m) = check_access_lem s peer ref t.decided d in
      let d1 = (check_access s peer ref t.decided d).1 in
      granted_by (check_access s peer ref t.decided d) (a ∙ h)
      ∙ ap
          (λ w.
            read_found s (cache_key ref flags) ref flags t d1
              (get w.cache (cache_key ref flags) t.looked_up))
          w

  -- A read that is allowed, and whose key the cache finds, is answered from the cache: the backend
  -- is not called, and only the count of the hits and the audit log change.
  pub read_hit :
      (d : Daemon E) (r : Found)
      → answer s peer ref ≡ true
      → get d.world.cache (cache_key ref flags) t.looked_up ≡ some r
      → let out = read_one_with_flags s peer ref flags t d in
        (out.0 ≡ ok (from_cache_response ref t.answered r))
        × (out.1.world ≡ record d.world { cache = inc_hit d.world.cache })
        × (out.1.session ≡ d.session)
  unfolding read_found on_cache
  read_hit d r h g =
      let (a, w, m) = check_access_lem s peer ref t.decided d in
      rw (granted d h, g) (refl, (λ i. record (w i) { cache = inc_hit (w i).cache }), m)

  -- The daemon on the way to the backend.
  abbrev pub entered : Daemon E → Daemon E
  entered d = on_cache (λ c. inc_in_flight (inc_miss c)) (check_access s peer ref t.decided d).1

  pub missed :
      (d : Daemon E)
      → answer s peer ref ≡ true
      → get d.world.cache (cache_key ref flags) t.looked_up ≡ none
      → read_one_with_flags s peer ref flags t d
        ≡ leaving (fly s (cache_key ref flags) ref flags t (entered d))
  unfolding read_found
  missed d h g = rw (granted d h, g) refl

  get-entered :
      (d : Daemon E) (key : Bytes) (now : ℤ)
      → get (entered d).world.cache key now ≡ get d.world.cache key now
  unfolding get peek read on_cache inc_in_flight inc_miss
  get-entered d key now =
      let (a, w, m) = check_access_lem s peer ref t.decided d in (λ i. get (w i).cache key now)

  sent :
      (d : Daemon E)
      → answer s peer ref ≡ true
      → get d.world.cache (cache_key ref flags) t.looked_up ≡ none
      → get d.world.cache (cache_key ref flags) t.looked_again ≡ none
      → read_one_with_flags s peer ref flags t d
        ≡ leaving (
            store_result
              (cache_key ref flags)
              ref
              t
              (s.backend.read_ref_with_flags ref flags t.called (entered d)))
  unfolding fly fly_found
  sent d h g g' = missed d h g ∙ rw (get-entered d (cache_key ref flags) t.looked_again, g') refl

  -- A read that is allowed, and that the cache does not answer, asks the backend. What the backend
  -- gives is the answer, and from then on the cache has it until its time to live is over, if the
  -- cache that the backend leaves is valid.
  pub read_stores :
      (d d' : Daemon E) (v : Bytes) (later : ℤ)
      → answer s peer ref ≡ true
      → get d.world.cache (cache_key ref flags) t.looked_up ≡ none
      → get d.world.cache (cache_key ref flags) t.looked_again ≡ none
      → s.backend.read_ref_with_flags ref flags t.called (entered d) ≡ (ok v, d')
      → IsValid d'.world.cache
      → later ≤ℤ t.stored +ℤ d'.world.cache.ttl
      → let out = read_one_with_flags s peer ref flags t d in
        (out.0 ≡ ok (fresh_response ref v d'.world.cache.ttl t.resolved))
        × (get out.1.world.cache (cache_key ref flags) later
            ≡ some (v, t.stored +ℤ d'.world.cache.ttl, t.stored_again))
  unfolding leaving store_result on_cache set_value
  read_stores d d' v later h g g' e valid within =
      rw (sent d h g g', e)
        (
          refl,
          get-dec_in_flight
                (set_value d'.world.cache (cache_key ref flags) v t.stored t.stored_again)
                (cache_key ref flags) later
              ∙ get-set_value d'.world.cache (cache_key ref flags) v t.stored t.stored_again later
                  valid within,
        )

  -- Where the backend fails, its error is the answer, and nothing is stored.
  pub read_fails :
      (d d' : Daemon E) (e : Error)
      → answer s peer ref ≡ true
      → get d.world.cache (cache_key ref flags) t.looked_up ≡ none
      → get d.world.cache (cache_key ref flags) t.looked_again ≡ none
      → s.backend.read_ref_with_flags ref flags t.called (entered d) ≡ (err e, d')
      → read_one_with_flags s peer ref flags t d ≡ (err e, on_cache dec_in_flight d')
  unfolding leaving store_result on_cache
  read_fails d d' e h g g' q = rw (sent d h g g', q) refl
