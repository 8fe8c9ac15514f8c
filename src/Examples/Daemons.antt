-- ===== src/Examples/Daemons.antt =====
-- The theorems on cmd/opx-authd/main.go at concrete flags.
use opx.Prelude.{ℕ, ◌≡◌, refl, true, false, none, some, List, [], ◌∷◌}
use opx.Prelude.Int.{pos, wrap64, ◌*ℤ◌}
use opx.Prelude.Bytes.{Bytes, codes, ◌=ᵇ◌}
use opx.Cache.{new_cache}
use opx.Policy.{FileRead, load}
use opx.Session.Config.{Config, SessionFlags, daemon_config}
use opx.Session.{locked}
use opx.Session.Manager.{Manager, new_manager}
use opx.Audit.Roller.{Calendar}
use opx.Audit.Logger.{new_logger, new_logger_with_config}
use opx.Backend.{Backend}
use opx.Backend.Multi.{multi}
use opx.Backend.Vault.{Server as VaultServer}
use opx.Daemon.{World, Daemon, Op, new_session_aware_op_cli}
use opx.Daemon.Start.{make_backend, op_cli_backend, multi_backend}
use opx.Server.{Server, read_one_with_flags}
use opx.Server.Locked.Histories.{history, IsLockedEmpty}
use opx.Server.Unaware.{with_session, carry}
use opx.Authd.{Flags, Host, serves, opx_authd, in_serve, with_logger, with_backend, session_manager}
use opx.Authd.Locked.{opx_authd-IsLockedEmpty}
use opx.Authd.Unaware.{Plain, opx_authd-reads_locked}
use opx.Server.Locked.Histories.{Event, reads, monitors}
use opx.Examples.Clients.{os}
use opx.Examples.Servers.{clock}

-- `op` gives one secret.
abbrev op : Op ℕ
op args n = (some (codes "secret"), n)

abbrev vaults : Daemon ℕ → VaultServer
vaults d = record {
  fetch = λ address token namespace. none;
  decode = λ body. none;
  marshal = λ fields. none;
  format_object = λ fields. [];
}

abbrev session_flags : SessionFlags
session_flags = record {
  session_timeout = pos 8;
  enable_session_lock = true;
  lock_on_auth_failure = true;
}

abbrev flags_for : Bytes → Flags
flags_for name = record {
  ttl_sec = pos 120;
  sock = [];
  backend_name = name;
  session = session_flags;
  enable_audit_log = false;
  audit_log_retention_days = pos 30;
}

abbrev calendar : Calendar
calendar = record {
  format_date = λ t. codes "2026-01-02";
  parse_date = λ s. some (pos 5);
  add_days = λ t n. t;
}

abbrev host : Host ℕ
host = record {
  parse_duration = λ t. none;
  env = λ v. [];
  config_file = λ c. c;
  config_dir = none;
  read_file = λ p. FileRead.missing;
  unmarshal = λ b. none;
  sha256 = λ b. b;
  os = os;
  dirs = [];
  calendar = calendar;
  opens = true;
  disk = record { names = []; contents = [] };
  now = pos 0;
  outside = 0;
}

abbrev config : Config
config = daemon_config host.parse_duration host.env host.config_file session_flags

abbrev made_server : Backend (Daemon ℕ) → Server ℕ
made_server b = record {
  sock_path = [];
  token = [];
  backend = b;
  policy = record { allow = []; default_deny = false };
  policy_path = [];
  audit_enabled = false;
  sha256 = λ b. b;
}

abbrev made_daemon : Manager (World ℕ) → Daemon ℕ
made_daemon m = record {
  session = some m;
  world = record { cache = new_cache (wrap64 (pos 120 *ℤ pos 1000000000)); outside = 0 };
  audit_log = [];
}

abbrev aware : Manager (World ℕ) × Backend (Daemon ℕ)
aware = new_session_aware_op_cli op (new_manager (some config) (pos 0))

op_cli_made :
    opx_authd op vaults (flags_for (codes "opcli")) host
    ≡ serves (made_server aware.1) (made_daemon aware.0)
unfolding opx_authd make_backend session_manager op_cli_backend with_backend with_logger load
    new_logger new_logger_with_config ◌=ᵇ◌
op_cli_made = refl

-- A read, and an idle timeout.
abbrev events : List Event
events =
    reads none (codes "op://V/I/f") [] clock
    ∷ monitors (pos 40000000000000) (pos 40000000000001)
    ∷ []

opx_authd-IsLockedEmpty_example :
    let d' = history (made_server aware.1) (in_serve op (made_daemon aware.0)) events in
    IsLockedEmpty op d'.session d'.world
opx_authd-IsLockedEmpty_example =
    opx_authd-IsLockedEmpty op vaults (flags_for (codes "opcli")) host (made_server aware.1)
      (made_daemon aware.0) events refl refl op_cli_made

abbrev plain : Manager (World ℕ)
plain = new_manager (some config) (pos 0)

multi_made :
    opx_authd op vaults (flags_for (codes "multi")) host
    ≡ serves (made_server (multi (multi_backend op (λ b. b) vaults))) (made_daemon plain)
unfolding opx_authd make_backend session_manager with_backend with_logger load new_logger
    new_logger_with_config ◌=ᵇ◌
multi_made = refl

abbrev locked_manager : Manager (World ℕ)
locked_manager = record plain { state = locked; locked_at = pos 9 }

opx_authd-reads_locked_example :
    let s = made_server (multi (multi_backend op (λ b. b) vaults)) in
    read_one_with_flags s none
      (codes "op://V/I/f")
      []
      clock
      (with_session (some locked_manager) (made_daemon plain))
    ≡ carry
        (some locked_manager)
        (read_one_with_flags s none (codes "op://V/I/f") [] clock (made_daemon plain))
opx_authd-reads_locked_example =
    opx_authd-reads_locked op vaults (flags_for (codes "multi")) host (some locked_manager)
      (λ d. refl) Plain.multi (made_server (multi (multi_backend op (λ b. b) vaults)))
      (made_daemon plain) refl multi_made none (codes "op://V/I/f") [] clock (made_daemon plain)
