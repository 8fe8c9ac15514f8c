-- ===== src/Daemon/Start.antt =====
-- cmd/opx-authd/main.go: the backend that the daemon makes for the flag `-backend`. The systems that
-- answer as Vault and as OpenBao are a parameter.
pub mod Vaults
use opx.Prelude.{Option, none, some, [], if◌then◌else◌}
use opx.Prelude.Int.{pos}
use opx.Prelude.Bytes.{Bytes, codes, ◌=ᵇ◌}
use opx.Session.Manager.{Manager}
use opx.Backend.{Backend}
use opx.Backend.OpCli.{fake}
use opx.Backend.Multi.{MultiBackend, multi}
use opx.Backend.Vault.{VaultConfig, Server, vault, bao}
use opx.Daemon.{World, Daemon, Op, plain_op_cli, new_session_aware_op_cli, new_session_aware_fake}

-- Fields that are not set have their zero value.
abbrev pub vault_config : VaultConfig
vault_config = record {
  address = codes "http://localhost:8200";
  namespace = [];
  auth_path = [];
  auth_method = codes "token";
  token = [];
  token_ttl = pos 0;
}

abbrev pub bao_config : VaultConfig
bao_config = record vault_config { address = codes "http://localhost:8300" }

module _ {E : Type 0} (op : Op E) (sha256 : Bytes → Bytes) (server : Daemon E → Server) where
  -- The manager, whose callbacks a session-aware backend sets, and the backend.
  abbrev pub Made : Type 0
  Made = Option (Manager (World E)) × Backend (Daemon E)

  unfoldable pub with_manager : Manager (World E) × Backend (Daemon E) → Made
  with_manager (m, b) = (some m, b)

  unfoldable pub op_cli_backend : Option (Manager (World E)) → Made
  unfolding with_manager new_session_aware_op_cli plain_op_cli
  op_cli_backend none = (none, plain_op_cli op)
  op_cli_backend (some m) = with_manager (new_session_aware_op_cli op m)

  fake_backend : Option (Manager (World E)) → Made
  unfolding with_manager new_session_aware_fake fake
  fake_backend none = (none, fake sha256)
  fake_backend (some m) = with_manager (new_session_aware_fake op sha256 m)

  unfoldable pub multi_backend : MultiBackend (Daemon E)
  unfolding plain_op_cli vault bao
  multi_backend = record {
    op_backend = some (plain_op_cli op);
    vault_backend = some (vault server vault_config);
    bao_backend = some (bao server bao_config);
    default_scheme = codes "op";
  }

  -- None for an unknown name, which ends the program.
  unfoldable pub make_backend : Bytes → Option (Manager (World E)) → Option Made
  unfolding op_cli_backend fake_backend multi_backend multi vault bao
  make_backend name m =
      if name =ᵇ codes "opcli"
      then some (op_cli_backend m)
      else if name =ᵇ codes "fake"
      then some (fake_backend m)
      else if name =ᵇ codes "vault"
      then some (m, vault server vault_config)
      else if name =ᵇ codes "bao"
      then some (m, bao server bao_config)
      else if name =ᵇ codes "multi"
      then some (m, multi multi_backend)
      else none
