-- ===== src/Authd/Locked.antt =====
-- The lock of the session, for the daemon that `main` of cmd/opx-authd/main.go makes.
use mathlib.Core.Path.{subst}
use opx.Prelude.{◌≡◌, if◌then◌else◌, refl, sym, true, Option, none, some, List}
use opx.Prelude.Int.{wrap64, ◌*ℤ◌}
use opx.Prelude.Bytes.{codes, ◌=ᵇ◌}
use opx.Session.Config.{second}
use opx.Session.Manager.{new_manager}
use opx.Audit.Logger.{Logger}
use opx.Backend.Vault.{Server as VaultServer}
use opx.Daemon.{Daemon, Op, session_aware, plain_op_cli, new_session_aware_op_cli}
use opx.Daemon.Start.{make_backend, op_cli_backend, with_manager}
use opx.Server.{Server}
use opx.Server.Locked.Histories.{Event, history, started, IsLockedEmpty, history-IsLockedEmpty}
use opx.Authd.{
  Flags, Host, Progress, serves, session_config, session_manager, audit_logger, with_logger,
  with_backend, opx_authd, with_callbacks, in_serve,
}

module _ {E : Type 0} (op : Op E) (vaults : Daemon E → VaultServer) (flags : Flags)
    (host : Host E) where
  -- What `main` makes for the backend of `op` with a session manager.
  abbrev IsOpCli : Progress E → Type 0
  IsOpCli (serves s d) =
      (s.backend ≡ session_aware (plain_op_cli op))
      × (in_serve op d
          ≡ started op (some (session_config op vaults flags host)) host.now
              (wrap64 (flags.ttl_sec *ℤ second)) host.outside)
  IsOpCli _ = Unit {0}

  with_logger-IsOpCli :
      (logger : Option Logger)
      → IsOpCli (
          with_logger op vaults flags host
            (op_cli_backend op host.sha256 vaults
              (some (new_manager (some (session_config op vaults flags host)) host.now)))
            logger)
  unfolding with_logger op_cli_backend with_manager new_session_aware_op_cli in_serve with_callbacks
      started
  with_logger-IsOpCli none = tt
  with_logger-IsOpCli (some logger) = (refl, refl)

  opx_authd-IsOpCli :
      flags.backend_name ≡ codes "opcli"
      → flags.session.enable_session_lock ≡ true
      → IsOpCli (opx_authd op vaults flags host)
  unfolding opx_authd with_backend make_backend session_manager ◌=ᵇ◌
  opx_authd-IsOpCli name enabled =
      let m = new_manager (some (session_config op vaults flags host)) host.now in
      subst
        (λ x. IsOpCli (
          with_backend op vaults flags host
            (make_backend op host.sha256 vaults x (session_manager op vaults flags host))))
        (sym name)
        (subst
          (λ b. IsOpCli (
            with_backend op vaults flags host
              (make_backend op host.sha256 vaults (codes "opcli") (if b then some m else none))))
          (sym enabled) (with_logger-IsOpCli (audit_logger op vaults flags host).0.0))

  -- The daemon that `main` makes for `-backend=opcli` with the session lock enabled has, from the start of `Serve`
  -- on and after every sequence of reads, unlocks, checks of the monitor and clean-ups of the cache, each run to its
  -- end before the next, a session that is authenticated or an empty cache.
  pub opx_authd-IsLockedEmpty :
      (s : Server E) (d : Daemon E) (es : List Event)
      → flags.backend_name ≡ codes "opcli"
      → flags.session.enable_session_lock ≡ true
      → opx_authd op vaults flags host ≡ serves s d
      → let d' = history s (in_serve op d) es in IsLockedEmpty op d'.session d'.world
  opx_authd-IsLockedEmpty s d es name enabled made =
      let (aware, begun) = subst IsOpCli made (opx_authd-IsOpCli name enabled) in
      rw begun (
        history-IsLockedEmpty op s (some (session_config op vaults flags host)) host.now
          (wrap64 (flags.ttl_sec *ℤ second)) host.outside es aware)
