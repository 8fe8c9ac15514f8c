-- ===== src/Server/Unaware.antt =====
-- The reads of a server whose backend is not session-aware: they do not look at the session.
use opx.Prelude.{◌≡◌, refl, ap, ◌∙◌, Bool, true, false, Option, none, some, List}
use opx.Prelude.Int.{ℤ}
use opx.Prelude.Bytes.{Bytes}
use opx.Cache.{Found, get, inc_miss, inc_in_flight}
use opx.Session.Manager.{Manager}
use opx.Security.{PeerInfo}
use opx.Audit.Events.{AuditEvent}
use opx.Policy.{allowed}
use opx.Protocol.{ReadResponse}
use opx.Backend.{Result, ok, err, Backend}
use opx.Daemon.{World, Daemon}
use opx.Server.{
  Server, Clock, cache_key, on_cache, log_event, validate_access, check_access, store_result,
  subject_of, fly_found, fly, leaving, read_found, read_granted, read_one_with_flags,
}

module _ {E : Type 0} (m : Option (Manager (World E))) where
  -- A daemon with another session.
  abbrev pub with_session : Daemon E → Daemon E
  with_session d = record d { session = m }

  abbrev pub carry : {A : Type 0} → A × Daemon E → A × Daemon E
  carry (a, d) = (a, with_session d)

  -- A backend that neither looks at the session nor changes it.
  abbrev pub IsUnaware : Backend (Daemon E) → Type 0
  IsUnaware b =
      (ref : Bytes) (flags : List Bytes) (now : ℤ) (d : Daemon E)
      → b.read_ref_with_flags ref flags now (with_session d)
        ≡ carry (b.read_ref_with_flags ref flags now d)

  module _ (s : Server E) (unaware : IsUnaware s.backend) where
    store-carry :
        (key ref : Bytes) (t : Clock) (r : Result Bytes × Daemon E)
        → store_result key ref t (carry r) ≡ carry (store_result key ref t r)
    unfolding store_result on_cache
    store-carry key ref t (err e, d) = refl
    store-carry key ref t (ok v, d) = refl

    fly-carry :
        (key ref : Bytes) (flags : List Bytes) (t : Clock) (d : Daemon E) (o : Option Found)
        → fly_found s key ref flags t (with_session d) o ≡ carry (fly_found s key ref flags t d o)
    unfolding fly_found on_cache
    fly-carry key ref flags t d (some r) = refl
    fly-carry key ref flags t d none =
        ap (store_result key ref t) (unaware ref flags t.called d)
        ∙ store-carry key ref t (s.backend.read_ref_with_flags ref flags t.called d)

    leaving-carry : (r : Result ReadResponse × Daemon E) → leaving (carry r) ≡ carry (leaving r)
    unfolding leaving on_cache
    leaving-carry (r, d) = refl

    found-carry :
        (key ref : Bytes) (flags : List Bytes) (t : Clock) (d : Daemon E) (o : Option Found)
        → read_found s key ref flags t (with_session d) o ≡ carry (read_found s key ref flags t d o)
    unfolding read_found fly on_cache
    found-carry key ref flags t d (some r) = refl
    found-carry key ref flags t d none =
        let entered = on_cache (λ c. inc_in_flight (inc_miss c)) d in
        ap leaving (fly-carry key ref flags t entered (get entered.world.cache key t.looked_again))
        ∙ leaving-carry (fly s key ref flags t entered)

    granted-carry :
        (ref : Bytes) (flags : List Bytes) (t : Clock) (r : Bool × Daemon E)
        → read_granted s ref flags t (carry r) ≡ carry (read_granted s ref flags t r)
    unfolding read_granted
    granted-carry ref flags t (false, d) = refl
    granted-carry ref flags t (true, d) =
        found-carry (cache_key ref flags) ref flags t d
          (get d.world.cache (cache_key ref flags) t.looked_up)

    log-carry :
        (e : Option AuditEvent) (d : Daemon E)
        → log_event e (with_session d) ≡ with_session (log_event e d)
    unfolding log_event
    log-carry none d = refl
    log-carry (some e) d = refl

    check-carry :
        (peer : Option PeerInfo) (ref : Bytes) (now : ℤ) (d : Daemon E)
        → check_access s peer ref now (with_session d) ≡ carry (check_access s peer ref now d)
    unfolding check_access validate_access
    check-carry none ref now d = refl
    check-carry (some peer) ref now d =
        let answer = allowed s.sha256 s.policy (subject_of peer) ref in
        ap (λ (d' : Daemon E). (answer, d')) (log-carry _ d)

    -- A read gives the same, and leaves the same but for the session, whatever the session is.
    pub read-carry :
        (peer : Option PeerInfo) (ref : Bytes) (flags : List Bytes) (t : Clock) (d : Daemon E)
        → read_one_with_flags s peer ref flags t (with_session d)
          ≡ carry (read_one_with_flags s peer ref flags t d)
    unfolding read_one_with_flags
    read-carry peer ref flags t d =
        ap (read_granted s ref flags t) (check-carry peer ref t.decided d)
        ∙ granted-carry ref flags t (check_access s peer ref t.decided d)
