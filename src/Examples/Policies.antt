-- ===== src/Examples/Policies.antt =====
-- The theorems on internal/policy and internal/audit/management.go at concrete inputs.
use opx.Prelude.{◌≡◌, ◌↔◌, ◌⊎◌, inr, refl, true, false, Option, none, some, [], ◌∷◌, All, arith}
use opx.Prelude.Int.{pos}
use opx.Prelude.Bytes.{Bytes, codes}
use opx.Policy.{Rule, Policy, Subject, allowed}
use opx.Policy.Grants.{Some, Grants, allowed_iff}
use opx.Audit.Denials.{DenialEvent}
use opx.Audit.Rules.{create_policy_rule_from_denial, suggest_allow_pattern, add_rule}
use opx.Audit.Rules.Suggestions.{WellFormed, in_vault, suggestions-allow}

abbrev client : Rule
client = record {
  path = codes "/usr/bin/opx";
  path_sha256 = [];
  pid = pos 0;
  refs = codes "op://V/*" ∷ [];
}

abbrev strict : Policy
strict = record { allow = client ∷ []; default_deny = true }

abbrev subject : Subject
subject = record { pid = pos 7; path = codes "/usr/bin/opx" }

abbrev ref : Bytes
ref = codes "op://V/I/f"

allowed_iff_example :
    (allowed (λ b. b) strict subject ref ≡ true)
    ↔ ((strict.default_deny ≡ false) ⊎ Some (λ r. Grants (λ b. b) r subject ref) strict.allow)
allowed_iff_example = allowed_iff (λ b. b) subject ref strict

abbrev denial : DenialEvent
denial = record {
  timestamp = pos 1;
  pid = pos 7;
  path = codes "/usr/bin/opx";
  reference = ref;
  count = pos 1;
}

ref-WellFormed : WellFormed ref
ref-WellFormed = in_vault (codes "V") (codes "I/f") (ground arith) refl

suggestions-allow_example :
    All
      (λ a.
        allowed (λ b. b) (add_rule strict (create_policy_rule_from_denial denial a)) subject ref
        ≡ true)
      (suggest_allow_pattern ref)
suggestions-allow_example =
    suggestions-allow (λ b. b) strict denial subject ref-WellFormed (inr (ground arith, refl))

-- An encoding of the policies that this example stores: the texts 0 and 1.
abbrev unmarshal : Bytes → Option Policy
unmarshal [] = none
unmarshal (n ∷ s) = some strict
