-- ===== src/Daemon/Start/Vaults.antt =====
-- What the daemon can read from Vault and from OpenBao.
use opx.Prelude.{ℕ, ◌≢◌, Option, none, some, List, [], ◌++◌, arith, ◌==◌, Bool-cases, inl, inr}
use opx.Prelude.Int.{ℤ}
use opx.Prelude.Bytes.{Bytes, codes, ◌=ᵇ◌}
use opx.Strings.{has_prefix}
use opx.Session.Manager.{Manager}
use opx.Backend.{Result, ok, err, Backend, ◌>>◌, ◌>>=◌}
use opx.Backend.Multi.{multi, get_backend_for_ref, read_from}
use opx.Backend.Vault.{
  VaultConfig, Server, vault, bao, vault_read, to_vault_uri, parse_vault_uri, ensure_authenticated,
  authenticate, verify_token, token_response, as_auth,
}
use opx.Daemon.{World, Daemon, Op}
use opx.Daemon.Start.{vault_config, bao_config, multi_backend, make_backend}

abbrev pub IsErr {ℓ} : {A : Type ℓ} → Result A → Type 0
IsErr (err e) = Unit {0}
IsErr (ok a) = ⊥

-- A system that refuses the empty token: it does not answer its check with 200.
abbrev pub IsRefusal : Option (ℕ × Bytes) → Type 0
IsRefusal none = Unit {0}
IsRefusal (some (status, body)) = status ≢ 200

abbrev pub Refuses : Server → VaultConfig → Type 0
Refuses srv c =
    IsRefusal (srv.fetch (c.address ++ codes "/v1/auth/token/lookup-self") [] c.namespace)

refused-IsErr : (o : Option (ℕ × Bytes)) → IsRefusal o → IsErr (token_response o)
unfolding token_response
refused-IsErr none h = tt
refused-IsErr (some (status, body)) h = elim (Bool-cases (status == 200)) [
  | inl q ↦ absurd (h (ground arith))
  | inr q ↦ rw q tt
]

as_auth-IsErr : (r : Result (Unit {0})) → IsErr r → IsErr (as_auth r)
unfolding as_auth
as_auth-IsErr (err e) h = tt
as_auth-IsErr (ok u) h = absurd h

bind-IsErr :
    {A B : Type 0} (r : Result A) (f : A → Result B) → ((a : A) → IsErr (f a)) → IsErr (r >>= f)
bind-IsErr (err e) f h = tt
bind-IsErr (ok a) f h = h a

seq-IsErr : {A : Type 0} (r : Result (Unit {0})) (rest : Result A) → IsErr r → IsErr (r >> rest)
seq-IsErr (err e) rest h = tt
seq-IsErr (ok u) rest h = absurd h

-- The configuration of the daemon for an address.
abbrev at_address : Bytes → VaultConfig
at_address a = record vault_config { address = a }

auth-IsErr :
    (srv : Server) (a : Bytes) (now now' : ℤ)
    → Refuses srv (at_address a)
    → IsErr (ensure_authenticated srv (at_address a) now now')
unfolding ensure_authenticated authenticate verify_token ◌=ᵇ◌
auth-IsErr srv a now now' h = refused-IsErr _ h

vault_read-IsErr :
    (srv : Server) (a ref : Bytes) (now now' : ℤ)
    → Refuses srv (at_address a)
    → IsErr (vault_read srv (at_address a) ref now now')
unfolding vault_read
vault_read-IsErr srv a ref now now' h = bind-IsErr (parse_vault_uri ref) _ (λ parts.
    seq-IsErr (as_auth (ensure_authenticated srv (at_address a) now now')) _
      (as_auth-IsErr _ (auth-IsErr srv a now now' h)))

-- Whether a read of the backend that was made fails.
abbrev pub Fails :
    {E : Type 0}
    → Option (Option (Manager (World E)) × Backend (Daemon E))
    → Bytes
    → List Bytes
    → ℤ
    → Daemon E
    → Type 0
Fails none ref flags now d = ⊥
Fails (some (m, b)) ref flags now d = IsErr (b.read_ref_with_flags ref flags now d).0

module _ {E : Type 0} (op : Op E) (sha256 : Bytes → Bytes) (server : Daemon E → Server) where
  -- A daemon that is started with -backend=vault, or with -backend=bao, fails to read any reference, and one that is
  -- started with -backend=multi any that begins with vault:// or bao://, from servers that refuse the empty token:
  -- nothing gives the daemon a token for them.
  pub make_backend_no_token :
      (m : Option (Manager (World E))) (ref : Bytes) (flags : List Bytes) (now : ℤ) (d : Daemon E)
      → Refuses (server d) vault_config
      → Refuses (server d) bao_config
      → Fails (make_backend op sha256 server (codes "vault") m) ref flags now d
        × Fails (make_backend op sha256 server (codes "bao") m) ref flags now d
        × Fails
            (make_backend op sha256 server (codes "multi") m)
            (codes "vault://" ++ ref)
            flags
            now
            d
        × Fails
            (make_backend op sha256 server (codes "multi") m)
            (codes "bao://" ++ ref)
            flags
            now
            d
  unfolding make_backend multi_backend multi read_from get_backend_for_ref vault bao has_prefix ◌=ᵇ◌
  make_backend_no_token m ref flags now d hv hb = (
    vault_read-IsErr (server d) vault_config.address ref now now hv,
    vault_read-IsErr (server d) bao_config.address (to_vault_uri ref) now now hb,
    vault_read-IsErr (server d) vault_config.address (codes "vault://" ++ ref) now now hv,
    vault_read-IsErr (server d) bao_config.address (to_vault_uri (codes "bao://" ++ ref)) now now
        hb,
  )
