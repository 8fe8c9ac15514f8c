-- ===== src/Backend/OpCli.antt =====
-- internal/backend/opcli.go and fake.go. What the program `op` prints for its arguments is a
-- parameter, which may depend on the state of the system outside and change it.
use opx.Prelude.{
  ℕ, ◌≡◌, ◌≢◌, Bool, true, false, not, Option, none, some, List, [], ◌∷◌, ◌++◌, take, if◌then◌else◌,
  ◌==◌,
}
use opx.Prelude.Bytes.{Bytes, codes, ◌=ᵇ◌}
use opx.Strings.{has_prefix, trim_space, trim_right, contains_any}
use opx.Policy.{hex_encode}
use opx.Backend.{
  Result, ok, err, Backend, ◌>>◌, empty_ref, dash_ref, not_op_ref, flag_without_dash, unsafe_flag,
  op_failed,
}

abbrev pub unsafe_chars : Bytes
unsafe_chars = codes ";&|`$()"

unfoldable pub check_flags : List Bytes → Result (Unit {0})
check_flags [] = ok tt
check_flags (flag ∷ flags) =
    let rest = check_flags flags in
    if flag =ᵇ []
    then rest
    else if not (has_prefix flag (codes "-"))
    then err flag_without_dash
    else if contains_any flag unsafe_chars
    then err unsafe_flag
    else rest

-- The flags that are passed on.
unfoldable pub global_flags : List Bytes → List Bytes
global_flags [] = []
global_flags (flag ∷ flags) =
    let rest = global_flags flags in if flag =ᵇ [] then rest else flag ∷ rest

check_ref : Bytes → Result (Unit {0})
check_ref ref =
    if trim_space ref =ᵇ []
    then err empty_ref
    else if has_prefix ref (codes "-")
    then err dash_ref
    else if not (has_prefix ref (codes "op://"))
    then err not_op_ref
    else ok tt

-- The arguments of `op`, or the refusal.
unfoldable pub op_args : Bytes → List Bytes → Result (List Bytes)
unfolding check_ref check_flags global_flags
op_args ref flags = do
  check_ref ref
  check_flags flags
  ok (global_flags flags ++ codes "read" ∷ codes "--no-color" ∷ ref ∷ [])

is_newline : ℕ → Bool
is_newline c = c == 10

-- The output without the newlines at its end.
unfoldable pub trimmed : Option Bytes → Result Bytes
unfolding trim_right is_newline
trimmed none = err op_failed
trimmed (some out) = ok (trim_right is_newline out)

module _ {D : Type 0} (op : List Bytes → D → Option Bytes × D) where
  unfoldable pub run_op : Result (List Bytes) → D → Result Bytes × D
  unfolding trimmed
  run_op (err e) d = (err e, d)
  run_op (ok args) d = let (out, d') = op args d in (trimmed out, d')

  unfoldable pub op_cli : Backend D
  unfolding run_op op_args
  op_cli = record {
    name = codes "opcli";
    read_ref_with_flags = λ ref flags now d. run_op (op_args ref flags) d;
  }

-- fake.go
hash_input : Bytes → List Bytes → Bytes
hash_input input [] = input
hash_input input (flag ∷ flags) = hash_input (input ++ (codes "|" ++ flag)) flags

module _ {D : Type 0} (sha256 : Bytes → Bytes) where
  unfoldable pub fake : Backend D
  unfolding hash_input
  fake = record {
    name = codes "fake";
    read_ref_with_flags = λ ref flags now d.
        (ok (codes "fake_" ++ hex_encode (take 8 (sha256 (hash_input ref flags)))), d);
  }

-- A flag that is passed on: with a dash in front, and none of seven characters of a shell.
pub record IsSafeFlag (flag : Bytes) : Type 0 where
  pub dashed : has_prefix flag (codes "-") ≡ true
  pub harmless : contains_any flag (codes ";&|`$()") ≡ false

-- A reference of 1Password that is not blank.
pub record IsOpRef (ref : Bytes) : Type 0 where
  pub full : trim_space ref ≢ []
  pub schemed : has_prefix ref (codes "op://") ≡ true
