-- ===== src/Examples/Histories.antt =====
-- The theorem on the histories of the daemon at a concrete one.
use opx.Prelude.{arith, ◌≡◌, ℕ, suc, refl, none, some, []}
use opx.Prelude.Int.{pos, ◌+ℤ◌, ◌≤ℤ◌}
use opx.Prelude.Bytes.{codes}
use opx.Dict.{keys}
use opx.Cache.{Found, clear, evict_where}
use opx.Session.{locked}
use opx.Session.Manager.{Manager, new_manager, set_callbacks, execute_lock_callback}
use opx.Backend.{ok}
use opx.Session.Config.{default_config}
use opx.Daemon.{
  World, Daemon, Op, session_aware, plain_op_cli, clear_cache, setup_session_lock_callback,
  new_session_aware_op_cli,
}
use opx.Server.{Server, cache_key, store_result, read_one_with_flags, from_cache_response}
use opx.Server.Reads.{answer}
use opx.Server.Locked.Race.{lock_daemon, locked_during_read}
use opx.Server.Locked.Histories.{started, started-Guarded}
use opx.Examples.Servers.{server, clock}

-- `op` counts its calls.
abbrev op : Op ℕ
op args n = (some (codes "secret"), suc n)

abbrev aware_server : Server ℕ
aware_server = record server { backend = session_aware (plain_op_cli op) }

abbrev manager : Manager (World ℕ)
manager =
    setup_session_lock_callback op
      (new_session_aware_op_cli op (new_manager (some default_config) (pos 0))).0

abbrev begun : Daemon ℕ
begun = started op (some default_config) (pos 0) (pos 100) 0

in_time : clock.looked_up ≤ℤ clock.stored +ℤ (lock_daemon op manager (pos 15) begun).world.cache.ttl
unfolding lock_daemon setup_session_lock_callback set_callbacks clear_cache execute_lock_callback
    clear started evict_where keys ◌+ℤ◌
in_time = ground arith

locked_during_read_example :
    let dl = lock_daemon op manager (pos 15) begun in
    let d' =
      (store_result
        (cache_key (codes "op://V/I/f") [])
        (codes "op://V/I/f")
        clock
        (ok (codes "secret"), dl)).1 in
    let out = read_one_with_flags aware_server none (codes "op://V/I/f") [] clock d' in
    let found : Found = (codes "secret", pos 16 +ℤ dl.world.cache.ttl, pos 17) in
    (out.0 ≡ ok (from_cache_response (codes "op://V/I/f") (pos 12) found))
    × (out.1.session ≡ some (record manager { state = locked; locked_at = pos 15 }))
unfolding answer started
locked_during_read_example =
    locked_during_read op aware_server none (codes "op://V/I/f") [] clock clock (codes "secret")
      manager (pos 15) begun (started-Guarded op (some default_config) (pos 0) (pos 100) 0) refl
      in_time
