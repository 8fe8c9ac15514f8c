-- ===== src/Backend.antt =====
-- internal/backend: where secrets are read.
--
-- A backend is its name and what `ReadRefWithFlags` does to the state `D` of the daemon; in every
-- backend `ReadRef` is `ReadRefWithFlags` with no flags.
pub mod OpCli
pub mod Vault
pub mod Multi
use opx.Prelude.{◌≡◌, refl, List, []}
use opx.Prelude.Int.{ℤ}
use opx.Prelude.Bytes.{Bytes}

pub data Error : Type 0 where
  empty_ref dash_ref not_op_ref flag_without_dash unsafe_flag op_failed : Error
  no_backend : Error
  not_vault_uri empty_vault_path : Error
  auth_failed method_not_implemented userpass_not_configured : Error
  request_failed not_found bad_status bad_response no_data : Error
  field_not_found no_data_field marshal_failed : Error
  session_invalid : Error
  access_denied : Error

pub data Result {ℓ} (A : Type ℓ) : Type ℓ where
  err : Error → Result A
  ok : A → Result A

-- An early return where a check fails.
infixl 5 ◌>>◌
abbrev pub ◌>>◌ {ℓ} : {A : Type ℓ} (check : Result (Unit {0})) (rest : Result A) → Result A
err e >> rest = err e
ok u >> rest = rest

infixl 5 ◌>>=◌
abbrev pub ◌>>=◌ {ℓ κ} : {A : Type ℓ} {B : Type κ} (m : Result A) (f : A → Result B) → Result B
err e >>= f = err e
ok a >>= f = f a

-- The time at which the backend is called is an argument.
pub record Backend {ℓ} (D : Type ℓ) : Type ℓ where
  pub name : Bytes
  pub read_ref_with_flags : Bytes → List Bytes → ℤ → D → Result Bytes × D

unfoldable pub read_ref {ℓ} : {D : Type ℓ} → Backend D → Bytes → ℤ → D → Result Bytes × D
read_ref b ref now d = b.read_ref_with_flags ref [] now d

-- A chain that succeeds passed its check.
pub >>-eq-ok {ℓ} :
    {A : Type ℓ} (check : Result (Unit {0})) (rest : Result A) {b : A}
    → (check >> rest) ≡ ok b
    → (check ≡ ok tt) × (rest ≡ ok b)
>>-eq-ok (ok u) rest h = (refl, h)
>>-eq-ok (err e) rest h = cc
