-- ===== src/Policy.antt =====
-- internal/policy/policy.go: who may read which reference.
--
-- `crypto/sha256` is a parameter, the sum of a byte string.
pub mod Grants
use opx.Prelude.{
  ℕ, ◌+◌, ◌/◌, ◌%◌, Bool, true, false, ◌&&◌, ◌||◌, not, Option, none, some, List, [], ◌∷◌, ltb,
  ◌==◌, if◌then◌else◌,
}
use opx.Prelude.Int.{ℤ, pos, negsuc}
use opx.Prelude.Bytes.{Bytes, codes, ◌=ᵇ◌}
use opx.Strings.{has_prefix, has_suffix, trim_suffix}
use opx.Paths.{clean, join_path}

pub record Rule : Type 0 where
  pub path : Bytes
  pub path_sha256 : Bytes
  pub pid : ℤ
  pub refs : List Bytes

pub record Policy : Type 0 where
  pub allow : List Rule
  pub default_deny : Bool

pub record Subject : Type 0 where
  pub pid : ℤ
  pub path : Bytes

abbrev pub default_policy : Policy
default_policy = record { allow = []; default_deny = false }

abbrev pub no_policy : Policy
no_policy = record { allow = []; default_deny = false }

-- `hex.EncodeToString`
hex_digit : ℕ → ℕ
hex_digit n = if ltb n 10 then b'0' + n else 87 + n

unfoldable pub hex_encode : Bytes → Bytes
unfolding hex_digit
hex_encode [] = []
hex_encode (c ∷ s) = hex_digit (c / 16) ∷ hex_digit (c % 16) ∷ hex_encode s

-- Equality of two ints.
abbrev pub eq_ℤ : ℤ → ℤ → Bool
eq_ℤ (pos m) (pos n) = m == n
eq_ℤ (pos m) (negsuc n) = false
eq_ℤ (negsuc m) (pos n) = false
eq_ℤ (negsuc m) (negsuc n) = m == n

unfoldable pub match_ref : List Bytes → Bytes → Bool
match_ref [] ref = false
match_ref (a ∷ rest) ref =
    let later = match_ref rest ref in
    if a =ᵇ codes "*"
    then true
    else if has_suffix a (codes "*")
    then (if has_prefix ref (trim_suffix a (codes "*")) then true else later)
    else if ref =ᵇ a
    then true
    else later

unfoldable pub same_path : Bytes → Bytes → Bool
same_path a b = if (a =ᵇ []) || (b =ᵇ []) then false else clean a =ᵇ clean b

-- `len(pol.Allow) == 0`
no_rules : List Rule → Bool
no_rules [] = true
no_rules (r ∷ rs) = false

module _ (sha256 : Bytes → Bytes) where
  unfoldable pub sha256_hex : Bytes → Bytes
  sha256_hex s = hex_encode (sha256 s)

  -- The loop over the rules: each `continue` goes on with the rules behind.
  unfoldable pub allowed_by : Policy → Subject → Bytes → List Rule → Bool
  unfolding sha256_hex
  allowed_by pol subj ref [] = not pol.default_deny
  allowed_by pol subj ref (r ∷ rs) =
      let later = allowed_by pol subj ref rs in
      if not (eq_ℤ r.pid (pos 0)) && not (eq_ℤ r.pid subj.pid)
      then later
      else if not (r.path =ᵇ []) && not (same_path r.path subj.path)
      then later
      else if not (r.path_sha256 =ᵇ []) && not (r.path_sha256 =ᵇ sha256_hex subj.path)
      then later
      else if match_ref r.refs ref
      then true
      else later

  unfoldable pub allowed : Policy → Subject → Bytes → Bool
  unfolding allowed_by no_rules
  allowed pol subj ref =
      if no_rules pol.allow && not pol.default_deny then true else allowed_by pol subj ref pol.allow

-- What `os.ReadFile` gives.
pub data FileRead : Type 0 where
  missing failed : FileRead
  text : Bytes → FileRead

pub data LoadError : Type 0 where
  no_config_dir read_failed bad_json : LoadError

-- `encoding/json` is a parameter. The error comes with the policy and the path, as in the source.
module _ (unmarshal : Bytes → Option Policy) where
  from_json : Bytes → Option Policy → Policy × Bytes × Option LoadError
  from_json p none = (no_policy, p, some bad_json)
  from_json p (some pol) = (pol, p, none)

  from_file : Bytes → FileRead → Policy × Bytes × Option LoadError
  unfolding from_json
  from_file p missing = (default_policy, p, none)
  from_file p failed = (no_policy, p, some read_failed)
  from_file p (text b) = from_json p (unmarshal b)

  unfoldable pub load : Option Bytes → (Bytes → FileRead) → Policy × Bytes × Option LoadError
  unfolding from_file
  load none read_file = (no_policy, [], some no_config_dir)
  load (some dir) read_file =
      let p = join_path dir (codes "policy.json") in from_file p (read_file p)
