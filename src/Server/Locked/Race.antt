-- ===== src/Server/Locked/Race.antt =====
-- A lock of the session in the midst of a read.
use opx.Prelude.{◌≡◌, true, Option, some, List}
use opx.Prelude.Int.{ℤ, ◌+ℤ◌, ◌≤ℤ◌}
use opx.Prelude.Bytes.{Bytes}
use opx.Cache.{Found, get}
use opx.Cache.Refinement.{get-set_value}
use opx.Session.{locked}
use opx.Session.Manager.{Manager, lock_session}
use opx.Security.{PeerInfo}
use opx.Backend.{ok}
use opx.Daemon.{World, Daemon, Op}
use opx.Server.{
  Server, Clock, cache_key, on_cache, read_one_with_flags, from_cache_response, store_result,
}
use opx.Server.Reads.{answer, read_hit}
use opx.Server.Locked.{IsSecure}
use opx.Server.Locked.Histories.{locking-IsSecure}

module _ {E : Type 0} (op : Op E) where
  -- The daemon in which the monitor has locked the session.
  unfoldable pub lock_daemon : Manager (World E) → ℤ → Daemon E → Daemon E
  unfolding lock_session
  lock_daemon m now d =
      let (m', w) = lock_session (m, d.world) now in record d { session = some m'; world = w }

  lock_daemon-IsSecure :
      (m : Manager (World E)) (now : ℤ) (d : Daemon E)
      → IsSecure op m d.world
      → IsSecure op (record m { state = locked; locked_at = now }) (lock_daemon m now d).world
  unfolding lock_daemon
  lock_daemon-IsSecure m now d h = locking-IsSecure op m d.world now h

  -- In a daemon with the callbacks of the server and a valid cache: where the monitor locks the session while a read waits for the backend or before its answer is stored, the
  -- locked daemon has the secret in its cache: a later read of it that the policy allows gets it, while the time to
  -- live lasts, without any validation of the session, which stays locked.
  pub locked_during_read :
      (s : Server E) (peer : Option PeerInfo) (ref : Bytes) (flags : List Bytes) (t t' : Clock)
      (v : Bytes) (m : Manager (World E)) (now : ℤ) (d : Daemon E)
      → IsSecure op m d.world
      → answer s peer ref ≡ true
      → t'.looked_up ≤ℤ t.stored +ℤ (lock_daemon m now d).world.cache.ttl
      → let dl = lock_daemon m now d in
        let d' = (store_result (cache_key ref flags) ref t (ok v, dl)).1 in
        let out = read_one_with_flags s peer ref flags t' d' in
        let found : Found = (v, t.stored +ℤ dl.world.cache.ttl, t.stored_again) in
        (out.0 ≡ ok (from_cache_response ref t'.answered found))
        × (out.1.session ≡ some (record m { state = locked; locked_at = now }))
  unfolding store_result on_cache lock_daemon
  locked_during_read s peer ref flags t t' v m now d h a fresh =
      let dl = lock_daemon m now d in
      let d' = (store_result (cache_key ref flags) ref t (ok v, dl)).1 in
      let there : get d'.world.cache (cache_key ref flags) t'.looked_up
          ≡ some (v, t.stored +ℤ dl.world.cache.ttl, t.stored_again) =
        get-set_value dl.world.cache (cache_key ref flags) v t.stored t.stored_again t'.looked_up
          (lock_daemon-IsSecure m now d h).valid fresh in
      let (answered, world, session) = read_hit s peer ref flags t' d' _ a there in
      (answered, session)
