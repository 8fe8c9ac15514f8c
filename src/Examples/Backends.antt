-- ===== src/Examples/Backends.antt =====
-- The theorems on internal/backend at concrete inputs.
use opx.Prelude.{ℕ, ◌≡◌, Option, none, some, List, [], ◌∷◌, arith}
use opx.Prelude.Int.{pos}
use opx.Prelude.Bytes.{Bytes, codes}
use opx.Cache.{new_cache}
use opx.Backend.{ok}
use opx.Backend.Vault.{VaultSecret, Server, end, field, str, parse_vault_uri}
use opx.Backend.Vault.Uris.{vault_uri, parse-vault_uri}
use opx.Daemon.Start.{Made, make_backend}
use opx.Daemon.Start.Vaults.{Fails, make_backend_no_token}
use opx.Daemon.{World, Daemon, Op}

abbrev flags : List Bytes
flags = codes "--account=work" ∷ [] ∷ []

abbrev args : List Bytes
args = codes "--account=work" ∷ codes "read" ∷ codes "--no-color" ∷ codes "op://V/I/f" ∷ []

parse-vault_uri_example :
    parse_vault_uri (vault_uri (codes "kv/app") (codes "user")) ≡ ok (codes "kv/app", codes "user")
parse-vault_uri_example = parse-vault_uri (codes "kv/app") (codes "user") (λ q. cc) (ground arith)

abbrev secret : VaultSecret
secret = record { secret_data = field (codes "user") (str (codes "bob")) end; metadata = end }

abbrev server : Server
server = record {
  fetch = λ address token namespace. some (200, codes "json");
  decode = λ body. some (some secret);
  marshal = λ fields. none;
  format_object = λ fields. [];
}

abbrev world : World ℕ
world = record { cache = new_cache (pos 100); outside = 3 }

abbrev closed_server : Server
closed_server = record server { fetch = λ address token namespace. some (403, []) }

abbrev quiet : Op ℕ
quiet command n = (none, n)

abbrev idle : Daemon ℕ
idle = record {
  session = none;
  world = record { cache = new_cache (pos 100); outside = 0 };
  audit_log = [];
}

make_backend_no_token_example :
    let made : Bytes → Option (Made quiet (λ b. b) (λ d. closed_server)) =
      λ name. make_backend quiet (λ b. b) (λ d. closed_server) name none in
    Fails (made (codes "vault")) (codes "kv#user") [] (pos 1) idle
    × Fails (made (codes "bao")) (codes "kv#user") [] (pos 1) idle
    × Fails (made (codes "multi")) (codes "vault://kv#user") [] (pos 1) idle
    × Fails (made (codes "multi")) (codes "bao://kv#user") [] (pos 1) idle
make_backend_no_token_example =
    make_backend_no_token quiet (λ b. b) (λ d. closed_server) none (codes "kv#user") [] (pos 1) idle
      (ground arith) (ground arith)
