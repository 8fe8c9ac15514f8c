-- ===== src/Backend/Multi.antt =====
-- internal/backend/multi.go: the router over the URI schemes. A backend that is nil is `none`.
use opx.Prelude.{◌≡◌, refl, Bool, true, false, Option, none, some, List, ◌++◌, if◌then◌else◌}
use opx.Prelude.Int.{ℤ}
use opx.Prelude.Bytes.{Bytes, codes, ◌=ᵇ◌}
use opx.Strings.{has_prefix}
use opx.Backend.{Result, err, Backend, no_backend}

pub record MultiBackend (D : Type 0) : Type 0 where
  pub op_backend : Option (Backend D)
  pub vault_backend : Option (Backend D)
  pub bao_backend : Option (Backend D)
  pub default_scheme : Bytes

module _ {D : Type 0} where
  -- References without a scheme that is known go to the default.
  by_default : MultiBackend D → Bytes → Option (Backend D)
  unfolding ◌=ᵇ◌
  by_default m scheme =
      if scheme =ᵇ codes "op"
      then m.op_backend
      else if scheme =ᵇ codes "vault"
      then m.vault_backend
      else if scheme =ᵇ codes "bao"
      then m.bao_backend
      else none

  unfoldable pub get_backend_for_ref : MultiBackend D → Bytes → Option (Backend D)
  unfolding by_default has_prefix
  get_backend_for_ref m ref =
      if has_prefix ref (codes "op://")
      then m.op_backend
      else if has_prefix ref (codes "vault://")
      then m.vault_backend
      else if has_prefix ref (codes "bao://")
      then m.bao_backend
      else by_default m m.default_scheme

  unfoldable pub read_from : Option (Backend D) → Bytes → List Bytes → ℤ → D → Result Bytes × D
  read_from none ref flags now d = (err no_backend, d)
  read_from (some b) ref flags now d = b.read_ref_with_flags ref flags now d

  unfoldable pub multi : MultiBackend D → Backend D
  unfolding read_from
  multi m = record {
    name = codes "multi";
    read_ref_with_flags = λ ref flags now d. read_from (get_backend_for_ref m ref) ref flags now d;
  }

if_any : {A : Type 0} (P : A → Type 0) (b : Bool) (x y : A) → P x → P y → P (if b then x else y)
if_any P true x y p q = p
if_any P false x y p q = q

-- What holds of the three backends, and of none, holds of the one that a reference goes to.
pub get_backend_any :
    {D : Type 0} (P : Option (Backend D) → Type 0) (m : MultiBackend D) (ref : Bytes)
    → P m.op_backend
    → P m.vault_backend
    → P m.bao_backend
    → P none
    → P (get_backend_for_ref m ref)
unfolding get_backend_for_ref by_default
get_backend_any P m ref o v b n = if_any P (has_prefix ref (codes "op://")) _ _ o (
    if_any P (has_prefix ref (codes "vault://")) _ _ v (
      if_any P (has_prefix ref (codes "bao://")) _ _ b (
        if_any P (m.default_scheme =ᵇ codes "op") _ _ o (
          if_any P (m.default_scheme =ᵇ codes "vault") _ _ v
            (if_any P (m.default_scheme =ᵇ codes "bao") _ _ b n)))))

-- The schemes of the three backends.
pub data Scheme : Type 0 where
  op vault bao : Scheme

abbrev pub scheme_prefix : Scheme → Bytes
scheme_prefix op = codes "op://"
scheme_prefix vault = codes "vault://"
scheme_prefix bao = codes "bao://"

abbrev pub scheme_name : Scheme → Bytes
scheme_name op = codes "op"
scheme_name vault = codes "vault"
scheme_name bao = codes "bao"

module _ {D : Type 0} where
  abbrev pub backend_of : MultiBackend D → Scheme → Option (Backend D)
  backend_of m op = m.op_backend
  backend_of m vault = m.vault_backend
  backend_of m bao = m.bao_backend

  -- A reference that begins with a scheme goes to the backend of that scheme, whatever the default.
  pub get_backend_scheme :
      (m : MultiBackend D) (s : Scheme) (rest : Bytes)
      → get_backend_for_ref m (scheme_prefix s ++ rest) ≡ backend_of m s
  unfolding get_backend_for_ref
  get_backend_scheme m op rest = refl
  get_backend_scheme m vault rest = refl
  get_backend_scheme m bao rest = refl

  -- Any other reference goes to the backend that the default names.
  pub get_backend_default :
      (m : MultiBackend D) (ref : Bytes) (s : Scheme)
      → ((t : Scheme) → has_prefix ref (scheme_prefix t) ≡ false)
      → m.default_scheme ≡ scheme_name s
      → get_backend_for_ref m ref ≡ backend_of m s
  unfolding get_backend_for_ref by_default
  get_backend_default m ref op h e = rw (h op, h vault, h bao, e)
  get_backend_default m ref vault h e = rw (h op, h vault, h bao, e)
  get_backend_default m ref bao h e = rw (h op, h vault, h bao, e)
