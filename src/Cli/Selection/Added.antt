-- ===== src/Cli/Selection/Added.antt =====
-- The policy that the choices of a user make.
use mathlib.Core.List.{append-nil, append_assoc}
use opx.Prelude.{
  arith, ℕ, zero, suc, ◌+◌, ◌≡◌, refl, sym, ap, ◌∙◌, Bool, true, false, not, ◌&&◌, ◌==◌, length,
  if◌then◌else◌, Option, none, some, List, [], ◌∷◌, ◌++◌, get_elem?,
}
use opx.Prelude.Bytes.{Bytes, codes}
use opx.Prelude.Int.{ℤ, pos, negsuc}
use opx.Strings.{trim_space, has_prefix, split}
use opx.Paths.{join_path}
use opx.Policy.{Rule, Policy, FileRead, load}
use opx.Audit.Denials.{DenialEvent}
use opx.Audit.Rules.{create_policy_rule_from_denial, add_rule, suggest_allow_pattern, vault_pattern}
use opx.Audit.Rules.Suggestions.{load-add_rule_to_policy}
use opx.Cli.Selection.{
  Progress, atoi, choice, chosen_pattern, add_chosen, with_choice, with_denial, process,
}

abbrev rule_of : DenialEvent → Option Bytes → List Rule → List Rule
rule_of d none rest = rest
rule_of d (some pattern) rest =
    record { path = d.path; path_sha256 = []; pid = pos 0; refs = pattern ∷ [] } ∷ rest

-- The pattern with a number, counted from 1.
abbrev numbered : List Bytes → Option ℤ → Option Bytes
numbered patterns (some (pos (suc n))) = get_elem? patterns n
numbered patterns _ = none

-- What is suggested for a reference: itself, the vault of a reference of 1Password, and everything.
abbrev suggested_vault : List Bytes → List Bytes
suggested_vault (scheme ∷ blank ∷ vault ∷ rest) = (codes "op://" ++ (vault ++ codes "/*")) ∷ []
suggested_vault _ = []

abbrev suggested : Bytes → List Bytes
suggested ref =
    ref
    ∷ ((if has_prefix ref (codes "op://") then suggested_vault (split b'/' ref) else [])
        ++ codes "*" ∷ [])

suggest-suggested : (ref : Bytes) → suggest_allow_pattern ref ≡ suggested ref
unfolding suggest_allow_pattern vault_pattern
suggest-suggested ref = ap (λ ps. ref ∷ (ps ++ codes "*" ∷ [])) (go (split b'/' ref))
  where
    go :
        (parts : List Bytes)
        → vault_pattern ref parts
          ≡ (if has_prefix ref (codes "op://") then suggested_vault parts else [])
    go [] = ground arith
    go (a ∷ []) = ground arith
    go (a ∷ b ∷ []) = ground arith
    go (a ∷ b ∷ vault ∷ rest) = refl

-- The suggestion whose number is written on the line.
abbrev picked : DenialEvent → Bytes → Option Bytes
picked d line = numbered (suggested d.reference) (atoi (trim_space line))

choice-picked : (d : DenialEvent) (line : Bytes) → choice d line ≡ picked d line
unfolding choice chosen_pattern
choice-picked d line = rw (← suggest-suggested d.reference) (go (atoi (trim_space line)))
  where
    go :
        (o : Option ℤ)
        → chosen_pattern (suggest_allow_pattern d.reference) o
          ≡ numbered (suggest_allow_pattern d.reference) o
    go none = refl
    go (some (negsuc n)) = refl
    go (some (pos zero)) = refl
    go (some (pos (suc n))) = refl

abbrev turn : Option DenialEvent → (List Bytes → List Rule) → List Bytes → List Rule
turn none rest lines = rest lines
turn (some d) rest [] = rest []
turn (some d) rest (line ∷ lines) = rule_of d (picked d line) (rest lines)

-- The rules that are chosen: for each position of a denial one line is read, and its number chooses
-- a pattern.
unfoldable pub chosen_rules : List DenialEvent → List ℕ → List Bytes → List Rule
chosen_rules denials [] lines = []
chosen_rules denials (idx ∷ indices) lines =
    turn (get_elem? denials idx) (chosen_rules denials indices) lines

-- A policy with no rules denies by default from its first rule on.
abbrev deny_with : List Rule → List Rule → Bool → Bool
deny_with [] (r ∷ rules) deny = true
deny_with _ _ deny = deny

-- The policy with the rules behind its own.
abbrev pub with_rules : List Rule → Policy → Policy
with_rules rules pol = record {
  allow = pol.allow ++ rules;
  default_deny = deny_with pol.allow rules pol.default_deny;
}

add_rule-with : (pol : Policy) (r : Rule) → add_rule pol r ≡ with_rules (r ∷ []) pol
unfolding add_rule
add_rule-with pol r = (λ i. record {
  allow = pol.allow ++ r ∷ [];
  default_deny = denies pol.allow pol.default_deny i;
})
  where
    denies :
        (rules : List Rule) (deny : Bool)
        → (if (length (rules ++ r ∷ []) == 1) && not deny then true else deny)
          ≡ deny_with rules (r ∷ []) deny
    denies [] true = refl
    denies [] false = refl
    denies (x ∷ []) deny = refl
    denies (x ∷ y ∷ rules) deny = ground arith

with_none : (pol : Policy) → with_rules [] pol ≡ pol
with_none pol = (λ i. record { allow = append-nil pol.allow i; default_deny = same pol.allow i })
  where
    same : (rules : List Rule) → deny_with rules [] pol.default_deny ≡ pol.default_deny
    same [] = refl
    same (x ∷ rules) = refl

with_more :
    (pol : Policy) (r : Rule) (rules : List Rule)
    → with_rules rules (with_rules (r ∷ []) pol) ≡ with_rules (r ∷ rules) pol
with_more pol r rules = (λ i. record {
  allow = append_assoc pol.allow (r ∷ []) rules i;
  default_deny = same pol.allow i;
})
  where
    same :
        (own : List Rule)
        → deny_with (own ++ r ∷ []) rules (deny_with own (r ∷ []) pol.default_deny)
          ≡ deny_with own (r ∷ rules) pol.default_deny
    same [] = refl
    same (x ∷ own) = refl

module _ (unmarshal : Bytes → Option Policy) (marshal : Policy → Option Bytes) (dir : Bytes) where
  -- JSON gives back each policy on the way.
  abbrev pub Encoded : List Rule → Policy → Type 0
  Encoded [] pol = Unit {0}
  Encoded (r ∷ rules) pol =
      ((b : Bytes) × (marshal (with_rules (r ∷ []) pol) ≡ some b)
        × (unmarshal b ≡ some (with_rules (r ∷ []) pol)))
      × Encoded rules (with_rules (r ∷ []) pol)

  abbrev Loads : (Bytes → FileRead) → Policy → Type 0
  Loads files pol =
      load unmarshal (some dir) files ≡ (pol, join_path dir (codes "policy.json"), none)

  abbrev step : List DenialEvent → ℕ → List ℕ → Progress → Progress
  step = process unmarshal marshal (some dir) (λ i. none)

  -- A loop whose rules are those of `rules`.
  abbrev Follows : (Progress → Progress) → (List Bytes → List Rule) → Type 0
  Follows loop rules =
      (lines : List Bytes) (files : Bytes → FileRead) (pol : Policy)
      → Encoded (rules lines) pol
      → Loads files pol
      → Loads (loop (record { lines = lines; files = files })).files (with_rules (rules lines) pol)

  added :
      (loop : Progress → Progress) (rules : List Bytes → List Rule) (i : ℕ) (d : DenialEvent)
      (o : Option Bytes)
      → Follows loop rules
      → (lines : List Bytes) (files : Bytes → FileRead) (pol : Policy)
      → Encoded (rule_of d o (rules lines)) pol
      → Loads files pol
      → Loads
          (loop (add_chosen unmarshal marshal (some dir) (λ i. none) i d lines files o)).files
          (with_rules (rule_of d o (rules lines)) pol)
  unfolding add_chosen
  added loop rules i d none f lines files pol c h = f lines files pol c h
  added loop rules i d (some pattern) f lines files pol ((b, m, u), c) h =
      let rule = create_policy_rule_from_denial d pattern in
      let one = add_rule-with pol rule in
      let (no_error, loads) =
        load-add_rule_to_policy unmarshal marshal dir files rule pol b h (ap marshal one ∙ m)
          (u ∙ ap some (sym one)) in
      let rest =
        f lines _ (with_rules (rule ∷ []) pol) c
          (loads ∙ ap (λ p. (p, join_path dir (codes "policy.json"), none)) one) in
      rest
      ∙ ap (λ p. (p, join_path dir (codes "policy.json"), none)) (with_more pol rule (rules lines))

  turn-Follows :
      (loop : Progress → Progress) (rules : List Bytes → List Rule) (i : ℕ) (o : Option DenialEvent)
      → Follows loop rules
      → Follows
          (λ p. loop (with_denial unmarshal marshal (some dir) (λ i. none) i o p))
          (turn o rules)
  unfolding with_denial with_choice
  turn-Follows loop rules i none f lines files pol c h = f lines files pol c h
  turn-Follows loop rules i (some d) f [] files pol c h = f [] files pol c h
  turn-Follows loop rules i (some d) f (line ∷ lines) files pol c h =
      rw (choice-picked d line) (added loop rules i d (picked d line) f lines files pol c h)

  -- After the loop over the selection the policy that `Load` finds is the one from before with
  -- the rules that the lines choose behind it, in their order, which denies by default if it
  -- did or had no rules and got some. For each denial of the selection one line is read, and
  -- the suggestion whose number is on it gives a rule for the path of the denial, with that
  -- suggestion alone; any other line gives none. The policy loads at first, JSON gives back
  -- each policy on the way, and every write succeeds.
  pub process-chosen :
      (denials : List DenialEvent) (indices : List ℕ) (i : ℕ) (lines : List Bytes)
      (files : Bytes → FileRead) (pol : Policy)
      → Encoded (chosen_rules denials indices lines) pol
      → Loads files pol
      → Loads
          (step denials i indices (record { lines = lines; files = files })).files
          (with_rules (chosen_rules denials indices lines) pol)
  unfolding process chosen_rules
  process-chosen denials [] i lines files pol c h = rw (with_none pol) h
  process-chosen denials (idx ∷ indices) i lines files pol c h =
      turn-Follows (step denials (i + 1) indices) (chosen_rules denials indices) i
        (get_elem? denials idx) (process-chosen denials indices (i + 1)) lines files pol c h
