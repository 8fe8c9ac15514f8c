-- ===== src/Audit/Rules.antt =====
-- internal/audit/management.go: from a denial to a rule of the policy.
pub mod Suggestions
use opx.Prelude.{
  ℕ, ◌≤◌, Bool, true, false, not, ◌&&◌, ◌||◌, Option, none, some, List, [], ◌∷◌, ◌++◌,
  if◌then◌else◌, length, ◌==◌, leb, get_elem?,
}
use opx.Prelude.Int.{ℤ, pos}
use opx.Prelude.Bytes.{Bytes, codes, ◌=ᵇ◌}
use opx.Strings.{has_prefix, split}
use opx.Paths.{join_path}
use opx.Policy.{Rule, Policy, FileRead, LoadError, load}
use opx.Audit.Denials.{DenialEvent}

unfoldable pub create_policy_rule_from_denial : DenialEvent → Bytes → Rule
create_policy_rule_from_denial denial allow_pattern = record {
  path = denial.path;
  path_sha256 = [];
  pid = pos 0;
  refs = allow_pattern ∷ [];
}

unfoldable pub vault_pattern : Bytes → List Bytes → List Bytes
vault_pattern reference (a ∷ b ∷ vault ∷ parts) =
    if has_prefix reference (codes "op://")
    then (codes "op://" ++ (vault ++ codes "/*")) ∷ []
    else []
vault_pattern reference _ = []

unfoldable pub suggest_allow_pattern : Bytes → List Bytes
unfolding vault_pattern
suggest_allow_pattern reference =
    reference ∷ (vault_pattern reference (split b'/' reference) ++ codes "*" ∷ [])

-- The policy that `AddRuleToPolicy` writes.
unfoldable pub add_rule : Policy → Rule → Policy
add_rule pol rule =
    let allow = pol.allow ++ rule ∷ [] in
    record {
      allow = allow;
      default_deny = if (length allow == 1) && not pol.default_deny then true else pol.default_deny;
    }

pub data AddError : Type 0 where
  load_failed no_config_dir marshal_failed write_failed : AddError

-- The files where `p` reads as `f`.
unfoldable pub written : (Bytes → FileRead) → Bytes → FileRead → Bytes → FileRead
written read_file p f q = if q =ᵇ p then f else read_file q

module _ (unmarshal : Bytes → Option Policy) (marshal : Policy → Option Bytes) where
  -- `outcome` is none where `os.WriteFile` succeeds, and what the file is then found to be where it
  -- fails.
  store :
      Option FileRead
      → (Bytes → FileRead)
      → Bytes
      → Option Bytes
      → (Bytes → FileRead) × Option AddError
  unfolding written
  store outcome read_file p none = (read_file, some marshal_failed)
  store none read_file p (some b) = (written read_file p (FileRead.text b), none)
  store (some f) read_file p (some b) = (written read_file p f, some write_failed)

  add_loaded :
      Option FileRead
      → Option Bytes
      → (Bytes → FileRead)
      → Rule
      → Policy
      → Option LoadError
      → (Bytes → FileRead) × Option AddError
  unfolding store add_rule
  add_loaded outcome dir read_file rule pol (some e) = (read_file, some load_failed)
  add_loaded outcome none read_file rule pol none = (read_file, some no_config_dir)
  add_loaded outcome (some dir) read_file rule pol none =
      store outcome read_file (join_path dir (codes "policy.json")) (marshal (add_rule pol rule))

  -- The files and the error afterwards. The directory is asked for twice.
  unfoldable pub add_rule_to_policy :
      Option FileRead
      → Option Bytes
      → Option Bytes
      → (Bytes → FileRead)
      → Rule
      → (Bytes → FileRead) × Option AddError
  unfolding add_loaded
  add_rule_to_policy outcome dir dir' read_file rule =
      let (pol, _, err) = load unmarshal dir read_file in
      add_loaded outcome dir' read_file rule pol err
