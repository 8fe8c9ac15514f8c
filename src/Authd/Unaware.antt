-- ===== src/Authd/Unaware.antt =====
-- The session lock of a daemon over Vault, OpenBao or several backends.
use mathlib.Core.Path.{subst}
use opx.Prelude.{◌≡◌, refl, sym, Option, none, some, List}
use opx.Prelude.Int.{ℤ}
use opx.Prelude.Bytes.{Bytes, codes, ◌=ᵇ◌}
use opx.Audit.Logger.{Logger}
use opx.Session.Manager.{Manager}
use opx.Security.{PeerInfo}
use opx.Backend.{Result, ok, err, Backend}
use opx.Backend.OpCli.{op_cli, run_op, op_args}
use opx.Backend.Multi.{multi as multi_of, read_from, get_backend_for_ref, get_backend_any}
use opx.Backend.Vault.{vault as vault_of, bao as bao_of, Server as VaultServer}
use opx.Daemon.{World, Daemon, Op, plain_op_cli, on_outside}
use opx.Daemon.Start.{make_backend, multi_backend, vault_config, bao_config}
use opx.Server.{Server, Clock, read_one_with_flags}
use opx.Server.Unaware.{with_session, carry, IsUnaware, read-carry}
use opx.Authd.{Flags, Host, Progress, serves, session_manager, with_logger, with_backend, opx_authd}

-- The backends that the flag names without a wrapper around them.
pub data Plain : Type 0 where
  vault bao multi : Plain

abbrev pub plain_name : Plain → Bytes
plain_name vault = codes "vault"
plain_name bao = codes "bao"
plain_name multi = codes "multi"

module _ {E : Type 0} (op : Op E) (sha256 : Bytes → Bytes) (vaults : Daemon E → VaultServer)
    (m : Option (Manager (World E)))
    (blind : (d : Daemon E) → vaults (with_session m d) ≡ vaults d) where
  vault-IsUnaware : IsUnaware m (vault_of vaults vault_config)
  unfolding vault_of
  vault-IsUnaware ref flags now d = rw (blind d) refl

  bao-IsUnaware : IsUnaware m (bao_of vaults bao_config)
  unfolding bao_of
  bao-IsUnaware ref flags now d = rw (blind d) refl

  op_cli-IsUnaware : IsUnaware m (plain_op_cli op)
  unfolding plain_op_cli op_cli
  op_cli-IsUnaware ref flags now d = go (op_args ref flags)
    where
      go :
          (r : Result (List Bytes))
          → run_op (on_outside op) r (with_session m d) ≡ carry m (run_op (on_outside op) r d)
      go (err e) = refl
      go (ok args) = refl

  abbrev Unaware : Option (Backend (Daemon E)) → Type 0
  Unaware none = Unit {0}
  Unaware (some b) = IsUnaware m b

  from-IsUnaware :
      (b : Option (Backend (Daemon E)))
      → Unaware b
      → (ref : Bytes) (flags : List Bytes) (now : ℤ) (d : Daemon E)
      → read_from b ref flags now (with_session m d) ≡ carry m (read_from b ref flags now d)
  unfolding read_from
  from-IsUnaware none u ref flags now d = refl
  from-IsUnaware (some b) u ref flags now d = u ref flags now d

  multi-IsUnaware : IsUnaware m (multi_of (multi_backend op sha256 vaults))
  unfolding multi_of multi_backend
  multi-IsUnaware ref flags now d =
      from-IsUnaware (get_backend_for_ref (multi_backend op sha256 vaults) ref)
        (get_backend_any Unaware (multi_backend op sha256 vaults) ref op_cli-IsUnaware
          vault-IsUnaware bao-IsUnaware tt)
        ref flags now d

module _ {E : Type 0} (op : Op E) (vaults : Daemon E → VaultServer) (flags : Flags) (host : Host E)
    (m : Option (Manager (World E)))
    (blind : (d : Daemon E) → vaults (with_session m d) ≡ vaults d) where
  abbrev Serves : Progress E → Type 0
  Serves (serves s d) = IsUnaware m s.backend
  Serves _ = Unit {0}

  with_logger-Serves :
      (b : Backend (Daemon E)) (m' : Option (Manager (World E))) (logger : Option Logger)
      → IsUnaware m b
      → Serves (with_logger op vaults flags host (m', b) logger)
  unfolding with_logger
  with_logger-Serves b m' none u = tt
  with_logger-Serves b m' (some logger) u = u

  named-Serves :
      (p : Plain)
      → Serves (
          with_backend op vaults flags host (
            make_backend op host.sha256 vaults
              (plain_name p)
              (session_manager op vaults flags host)))
  unfolding make_backend with_backend ◌=ᵇ◌
  named-Serves vault = with_logger-Serves _ _ _ (vault-IsUnaware op host.sha256 vaults m blind)
  named-Serves bao = with_logger-Serves _ _ _ (bao-IsUnaware op host.sha256 vaults m blind)
  named-Serves multi = with_logger-Serves _ _ _ (multi-IsUnaware op host.sha256 vaults m blind)

  -- The reads of the daemon that `main` makes for `-backend=vault`, `-backend=bao` or `-backend=multi` do not
  -- depend on the session, also where the session lock is enabled: with any session, locked or not, a read
  -- gives the same, and leaves the same but for the session. What answers for Vault and OpenBao is taken not to
  -- depend on the session of the daemon.
  pub opx_authd-reads_locked :
      (p : Plain) (s : Server E) (d0 : Daemon E)
      → flags.backend_name ≡ plain_name p
      → opx_authd op vaults flags host ≡ serves s d0
      → (peer : Option PeerInfo) (ref : Bytes) (args : List Bytes) (t : Clock) (d : Daemon E)
      → read_one_with_flags s peer ref args t (with_session m d)
        ≡ carry m (read_one_with_flags s peer ref args t d)
  unfolding opx_authd
  opx_authd-reads_locked p s d0 name made peer ref args t d =
      let unaware : Serves (opx_authd op vaults flags host) =
        subst
          (λ x. Serves (
            with_backend op vaults flags host
              (make_backend op host.sha256 vaults x (session_manager op vaults flags host))))
          (sym name) (named-Serves p) in
      read-carry m s (subst Serves made unaware) peer ref args t d
