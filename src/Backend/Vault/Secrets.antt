-- ===== src/Backend/Vault/Secrets.antt =====
-- What the Vault backend returns for a secret.
use opx.Prelude.{◌≡◌, ◌≢◌, refl, none, some, [], ◌++◌, arith}
use opx.Prelude.Int.{ℤ, pos, ◌+ℤ◌, ◌≤ℤ◌, ◌<ℤ◌}
use opx.Prelude.Bytes.{Bytes, codes, =ᵇ_ne}
use opx.Backend.{ok, err, no_data_field}
use opx.Backend.Vault.{
  Server, VaultConfig, VaultSecret, member, extract, in_data, vault_read, parse_vault_uri,
  read_secret, ensure_authenticated,
}

-- A token that is set, with a positive time to live, is taken for valid at every time, without a
-- request, however long ago it was given out.
pub token_never_expires :
    (srv : Server) (c : VaultConfig) (now now' : ℤ)
    → c.token ≢ []
    → pos 0 <ℤ c.token_ttl
    → now ≤ℤ now'
    → ensure_authenticated srv c now now' ≡ ok tt
unfolding ensure_authenticated ◌+ℤ◌
token_never_expires srv c now now' ne h le = rw (=ᵇ_ne c.token [] ne) (ground arith)

-- Where a server answers a read with a secret, and the data of the secret has no member
-- `data`, no field of it is found, whatever the field is.
pub field_not_read :
    (srv : Server) (c : VaultConfig) (path f ref body : Bytes) (s : VaultSecret) (now now' : ℤ)
    → parse_vault_uri ref ≡ ok (path, f)
    → f ≢ []
    → ensure_authenticated srv c now now' ≡ ok tt
    → srv.fetch (c.address ++ (codes "/v1/" ++ path)) c.token c.namespace ≡ some (200, body)
    → srv.decode body ≡ some (some s)
    → member (codes "data") s.secret_data ≡ none
    → vault_read srv c ref now now' ≡ err no_data_field
unfolding vault_read
field_not_read srv c path f ref body s now now' p ne a r d m =
    rw (p, a, read_lem) (unfold extract in_data in rw (=ᵇ_ne f [] ne, m))
  where
    read_lem : read_secret srv c path ≡ ok s
    read_lem = unfold read_secret in rw (r) (rw d refl)
