-- ===== src/Backend/Vault.antt =====
-- internal/backend/vault.go: the Vault and OpenBao backends.
--
-- The server is a parameter: what it answers to a GET of an address with a token and a namespace.
-- `encoding/json` is a parameter too: decoding a response, and encoding the data of a secret.
pub mod Uris
pub mod Secrets
use opx.Prelude.{
  ℕ, Bool, true, false, not, ◌&&◌, Option, none, some, List, [], ◌∷◌, ◌++◌, if◌then◌else◌, ◌==◌,
}
use opx.Prelude.Int.{ℤ, ◌+ℤ◌, ltb_ℤ}
use opx.Prelude.Bytes.{Bytes, codes, ◌=ᵇ◌}
use opx.Strings.{has_prefix, trim_prefix, split_two}
use opx.Dict.{Dict, lookup}
use opx.Backend.{
  Result, ok, err, ◌>>=◌, ◌>>◌, Backend, not_vault_uri, empty_vault_path, method_not_implemented,
  auth_failed, userpass_not_configured, request_failed, not_found, bad_status, bad_response,
  no_data, field_not_found, no_data_field, marshal_failed,
}

pub record VaultConfig : Type 0 where
  pub address : Bytes
  pub namespace : Bytes
  pub auth_path : Bytes
  pub auth_method : Bytes
  pub token : Bytes
  pub token_ttl : ℤ

-- A decoded JSON value: a text, an object, or another value, as `%v` formats it.
mutual
  pub data Value : Type 0 where
    str : Bytes → Value
    object : Fields → Value
    other : Bytes → Value

  pub data Fields : Type 0 where
    end : Fields
    field : Bytes → Value → Fields → Fields

unfoldable pub member : Bytes → Fields → Option Value
unfolding ◌=ᵇ◌
member k end = none
member k (field j v fs) = if j =ᵇ k then some v else member k fs

pub record VaultSecret : Type 0 where
  pub secret_data : Fields
  pub metadata : Fields

-- The parts of a reference: the path and what follows `#`.
parts_of : Bytes × Option Bytes → Result (Bytes × Bytes)
unfolding ◌=ᵇ◌
parts_of (path, none) = if path =ᵇ [] then err empty_vault_path else ok (path, [])
parts_of (path, some f) = if path =ᵇ [] then err empty_vault_path else ok (path, f)

unfoldable pub parse_vault_uri : Bytes → Result (Bytes × Bytes)
unfolding parts_of has_prefix
parse_vault_uri ref =
    if not (has_prefix ref (codes "vault://"))
    then err not_vault_uri
    else parts_of (split_two b'#' (trim_prefix ref (codes "vault://")))

-- The status and the body of a response; `none` is a request that failed.
pub record Server : Type 0 where
  pub fetch : Bytes → Bytes → Bytes → Option (ℕ × Bytes)
  -- the `data` of a response, and an error of the decoder as `none`
  pub decode : Bytes → Option (Option VaultSecret)
  -- what `json.Marshal` makes of the data of a secret, and `%v` of an object
  pub marshal : Fields → Option Bytes
  pub format_object : Fields → Bytes

unfoldable pub token_response : Option (ℕ × Bytes) → Result (Unit {0})
token_response none = err request_failed
token_response (some (status, body)) = if status == 200 then ok tt else err bad_status

unfoldable pub verify_token : Server → VaultConfig → Result (Unit {0})
unfolding token_response
verify_token srv c =
    token_response (srv.fetch (c.address ++ codes "/v1/auth/token/lookup-self") c.token c.namespace)

unfoldable pub authenticate : Server → VaultConfig → Result (Unit {0})
unfolding verify_token
authenticate srv c =
    if c.auth_method =ᵇ codes "token"
    then verify_token srv c
    else if c.auth_method =ᵇ codes "userpass"
    then err userpass_not_configured
    else err method_not_implemented

-- The clock is read twice; `now` first.
unfoldable pub ensure_authenticated : Server → VaultConfig → ℤ → ℤ → Result (Unit {0})
unfolding authenticate
ensure_authenticated srv c now now' =
    if not (c.token =ᵇ []) && ltb_ℤ now (now' +ℤ c.token_ttl) then ok tt else authenticate srv c

secret_decoded : Option (Option VaultSecret) → Result VaultSecret
secret_decoded none = err bad_response
secret_decoded (some none) = err no_data
secret_decoded (some (some s)) = ok s

secret_response : Server → Option (ℕ × Bytes) → Result VaultSecret
unfolding secret_decoded
secret_response srv none = err request_failed
secret_response srv (some (status, body)) =
    if status == 404
    then err not_found
    else if status == 200
    then secret_decoded (srv.decode body)
    else err bad_status

unfoldable pub read_secret : Server → VaultConfig → Bytes → Result VaultSecret
unfolding secret_response
read_secret srv c path =
    secret_response srv (srv.fetch (c.address ++ (codes "/v1/" ++ path)) c.token c.namespace)

value_text : Server → Value → Bytes
value_text srv (str s) = s
value_text srv (object fs) = srv.format_object fs
value_text srv (other s) = s

field_of : Server → Option Value → Result Bytes
unfolding value_text
field_of srv none = err field_not_found
field_of srv (some v) = ok (value_text srv v)

-- The member `data` of the secret, where it is an object.
in_data : Server → Bytes → Option Value → Result Bytes
unfolding field_of member
in_data srv f none = err no_data_field
in_data srv f (some (str s)) = err no_data_field
in_data srv f (some (other s)) = err no_data_field
in_data srv f (some (object fs)) = field_of srv (member f fs)

marshalled : Option Bytes → Result Bytes
marshalled none = err marshal_failed
marshalled (some b) = ok b

unfoldable pub extract : Server → Bytes → VaultSecret → Result Bytes
unfolding in_data marshalled member
extract srv f s =
    if not (f =ᵇ [])
    then in_data srv f (member (codes "data") s.secret_data)
    else marshalled (srv.marshal s.secret_data)

unfoldable pub as_auth : Result (Unit {0}) → Result (Unit {0})
as_auth (ok x) = ok x
as_auth (err e) = err auth_failed

unfoldable pub vault_read : Server → VaultConfig → Bytes → ℤ → ℤ → Result Bytes
unfolding as_auth
vault_read srv c ref now now' = do
  parts ← parse_vault_uri ref
  as_auth (ensure_authenticated srv c now now')
  secret ← read_secret srv c parts.0
  extract srv parts.1 secret

unfoldable pub to_vault_uri : Bytes → Bytes
unfolding has_prefix
to_vault_uri ref =
    if has_prefix ref (codes "bao://")
    then codes "vault://" ++ trim_prefix ref (codes "bao://")
    else ref

-- Flags are not used, and the clock is read once for both readings of the source.
module _ {D : Type 0} (server : D → Server) where
  unfoldable pub vault : VaultConfig → Backend D
  unfolding vault_read
  vault c = record {
    name = codes "vault";
    read_ref_with_flags = λ ref flags now d. (vault_read (server d) c ref now now, d);
  }

  unfoldable pub bao : VaultConfig → Backend D
  unfolding vault_read to_vault_uri
  bao c = record {
    name = codes "bao";
    read_ref_with_flags =
        λ ref flags now d. (vault_read (server d) c (to_vault_uri ref) now now, d);
  }
