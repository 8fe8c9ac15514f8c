-- ===== src/Authd.antt =====
-- cmd/opx-authd/main.go: what `main` makes of its flags, before and in `Serve`. What it reads of the
-- host is the record `Host`; the directories that it makes on the way are those of Files, and
-- are left out here. The messages are left out.
pub mod Locked
pub mod Unaware
use opx.Prelude.{Bool, true, false, Option, none, some, [], if◌then◌else◌}
use opx.Prelude.Int.{ℤ, pos, wrap64, ◌*ℤ◌}
use opx.Prelude.Bytes.{Bytes, codes}
use opx.Files.{Os, Dirs}
use opx.Cache.{new_cache}
use opx.Policy.{Policy, FileRead, LoadError, load}
use opx.Audit.Roller.{RollerConfig, Calendar, Disk}
use opx.Audit.Logger.{Logger, new_logger_with_config, new_logger}
use opx.Session.Config.{Config, Env, SessionFlags, second, daemon_config}
use opx.Session.Manager.{Manager, new_manager}
use opx.Backend.{Backend}
use opx.Backend.Vault.{Server as VaultServer}
use opx.Daemon.{World, Daemon, Op, setup_session_lock_callback}
use opx.Daemon.Start.{Made, make_backend}
use opx.Server.{Server}

-- The flags, each with its value, the default where the command line does not give it.
pub record Flags : Type 0 where
  pub ttl_sec : ℤ
  pub sock : Bytes
  pub backend_name : Bytes
  pub session : SessionFlags
  pub enable_audit_log : Bool
  pub audit_log_retention_days : ℤ

pub record Host (E : Type 0) : Type 0 where
  pub parse_duration : Bytes → Option ℤ
  pub env : Env
  pub config_file : Config → Config
  pub config_dir : Option Bytes
  pub read_file : Bytes → FileRead
  pub unmarshal : Bytes → Option Policy
  pub sha256 : Bytes → Bytes
  pub os : Os
  pub dirs : Dirs
  pub calendar : Calendar
  pub opens : Bool
  pub disk : Disk
  pub now : ℤ
  pub outside : E

-- How far `main` comes.
pub data Progress (E : Type 0) : Type 0 where
  unknown_backend no_audit_logger : Progress E
  serves : Server E → Daemon E → Progress E

-- A policy that cannot be loaded is one that allows everything.
or_open : Policy × Bytes × Option LoadError → Policy × Bytes
or_open (p, path, none) = (p, path)
or_open (p, path, some e) = (record { allow = []; default_deny = false }, path)

unfoldable pub roller_config : ℤ → RollerConfig
roller_config days = record {
  max_days = days;
  compress_old = false;
  rotate_on_start = true;
  flush_interval = pos 5000000000;
}

module _ {E : Type 0} (op : Op E) (vaults : Daemon E → VaultServer) (flags : Flags)
    (host : Host E) where
  pub session_config : Config
  unfolding daemon_config
  session_config = daemon_config host.parse_duration host.env host.config_file flags.session

  unfoldable pub session_manager : Option (Manager (World E))
  unfolding session_config new_manager
  session_manager =
      if flags.session.enable_session_lock
      then some (new_manager (some session_config) host.now)
      else none

  pub audit_logger : (Option Logger × Disk) × Dirs
  unfolding new_logger_with_config new_logger roller_config
  audit_logger =
      if flags.enable_audit_log
      then new_logger_with_config host.calendar true (roller_config flags.audit_log_retention_days)
          host.now host.opens host.os host.dirs host.disk
      else new_logger host.calendar false host.now host.opens host.os host.dirs host.disk

  unfoldable pub with_logger : Made op host.sha256 vaults → Option Logger → Progress E
  unfolding or_open load
  with_logger made none = no_audit_logger
  with_logger (m, b) (some logger) =
      let (policy, path) = or_open (load host.unmarshal host.config_dir host.read_file) in
      serves
        (record {
          sock_path = flags.sock;
          token = [];
          backend = b;
          policy = policy;
          policy_path = path;
          audit_enabled = logger.enabled;
          sha256 = host.sha256;
        })
        (record {
          session = m;
          world = record {
            cache = new_cache (wrap64 (flags.ttl_sec *ℤ second));
            outside = host.outside;
          };
          audit_log = [];
        })

  unfoldable pub with_backend : Option (Made op host.sha256 vaults) → Progress E
  unfolding with_logger audit_logger
  with_backend none = unknown_backend
  with_backend (some made) = with_logger made audit_logger.0.0

  -- `main`, up to the call of `Serve`.
  unfoldable pub opx_authd : Progress E
  unfolding with_backend make_backend session_manager
  opx_authd = with_backend (make_backend op host.sha256 vaults flags.backend_name session_manager)

module _ {E : Type 0} (op : Op E) where
  unfoldable pub with_callbacks : Option (Manager (World E)) → Option (Manager (World E))
  unfolding setup_session_lock_callback
  with_callbacks none = none
  with_callbacks (some m) = some (setup_session_lock_callback op m)

  -- What `Serve` does to the session before it accepts connections.
  unfoldable pub in_serve : Daemon E → Daemon E
  unfolding with_callbacks
  in_serve d = record d { session = with_callbacks d.session }
