-- ===== src/Audit/Rules/Suggestions.antt =====
-- What a suggested rule permits once it is added.
use mathlib.Core.List.{append_assoc}
use opx.Prelude.{
  ◌≡◌, ◌∙◌, ◌≢◌, ◌⊎◌, inl, inr, refl, ap, true, false, Option, none, some, List, [], ◌∷◌, ◌++◌,
  arith, All,
}
use opx.Prelude.Bytes.{Bytes, codes, =ᵇ_refl}
use opx.Strings.{has_prefix, split}
use opx.Strings.Laws.{Lacks, has_prefix-append, split-append}
use opx.Paths.{clean, join_path}
use opx.Policy.{Rule, Policy, Subject, FileRead, allowed, load}
use opx.Policy.Grants.{Matches, exact, prefix, Some, Grants, allowed_iff}
use opx.Audit.Denials.{DenialEvent}
use opx.Audit.Rules.{
  create_policy_rule_from_denial, suggest_allow_pattern, vault_pattern, add_rule,
  add_rule_to_policy, written,
}

Some-append_last : {A : Type 0} (P : A → Type 0) (xs : List A) (x : A) → P x → Some P (xs ++ x ∷ [])
Some-append_last P [] x h = inl h
Some-append_last P (y ∷ xs) x h = inr (Some-append_last P xs x h)

-- The rule made from a denial grants what its pattern matches to the process that was denied, and,
-- where the path of that process is not known, to every process.
pub create-Grants :
    (sha256 : Bytes → Bytes) (d : DenialEvent) (a ref : Bytes) (subj : Subject)
    → (d.path ≡ []) ⊎ ((subj.path ≢ []) × (d.path ≡ subj.path))
    → Matches a ref
    → Grants sha256 (create_policy_rule_from_denial d a) subj ref
unfolding create_policy_rule_from_denial
create-Grants sha256 d a ref subj who m = record {
  by_pid = inl refl;
  by_path = elim who [ inl e ↦ inl e | inr (n, e) ↦ inr (n, ap clean e) ];
  by_sum = inl refl;
  by_ref = inl m;
}

-- Adding the rule lets the subject read the reference, whatever the policy was.
allowed-add_rule :
    (sha256 : Bytes → Bytes) (pol : Policy) (r : Rule) (subj : Subject) (ref : Bytes)
    → Grants sha256 r subj ref
    → allowed sha256 (add_rule pol r) subj ref ≡ true
unfolding add_rule
allowed-add_rule sha256 pol r subj ref g =
    (allowed_iff sha256 subj ref (add_rule pol r)).1
      (inr (Some-append_last (λ r. Grants sha256 r subj ref) pol.allow r g))

-- A reference whose suggestions all match it: one that names a vault and something in it, or one
-- of another scheme.
pub data WellFormed (ref : Bytes) : Type 0 where
  in_vault :
      (vault rest : Bytes)
      → Lacks b'/' vault
      → ref ≡ codes "op://" ++ (vault ++ b'/' ∷ rest)
      → WellFormed ref
  other_scheme : has_prefix ref (codes "op://") ≡ false → WellFormed ref

vault_part :
    (vault rest : Bytes)
    → Lacks b'/' vault
    → split b'/' (codes "op://" ++ (vault ++ b'/' ∷ rest))
      ≡ codes "op:" ∷ [] ∷ vault ∷ split b'/' rest
vault_part vault rest h =
    split-append b'/' (codes "op:") (b'/' ∷ (vault ++ b'/' ∷ rest)) (omega arith)
    ∙ ap (◌∷◌ (codes "op:")) (
        split-append b'/' [] (vault ++ b'/' ∷ rest) tt
        ∙ ap (◌∷◌ []) (split-append b'/' vault rest h))

-- Without a vault the list of the parts does not matter.
vault_pattern_other :
    (ref : Bytes) (parts : List Bytes)
    → has_prefix ref (codes "op://") ≡ false
    → vault_pattern ref parts ≡ []
unfolding vault_pattern
vault_pattern_other ref [] h = refl
vault_pattern_other ref (a ∷ []) h = refl
vault_pattern_other ref (a ∷ b ∷ []) h = refl
vault_pattern_other ref (a ∷ b ∷ c ∷ parts) h = rw h

star_Matches : (ref : Bytes) → Matches (codes "*") ref
star_Matches ref = prefix [] ref refl refl

vault_Matches :
    (vault rest : Bytes)
    → Matches (codes "op://" ++ (vault ++ codes "/*")) (codes "op://" ++ (vault ++ b'/' ∷ rest))
vault_Matches vault rest =
    prefix (codes "op://" ++ (vault ++ b'/' ∷ [])) rest (simp append_assoc) (simp append_assoc)

suggestions_in_vault :
    (vault rest : Bytes)
    → Lacks b'/' vault
    → let ref = codes "op://" ++ (vault ++ b'/' ∷ rest) in
      suggest_allow_pattern ref ≡ ref ∷ (codes "op://" ++ (vault ++ codes "/*")) ∷ codes "*" ∷ []
unfolding suggest_allow_pattern vault_pattern
suggestions_in_vault vault rest h =
    rw (vault_part vault rest h, has_prefix-append (codes "op://") (vault ++ b'/' ∷ rest)) refl

vault_suggestions-Matches :
    (vault rest : Bytes)
    → Lacks b'/' vault
    → let ref = codes "op://" ++ (vault ++ b'/' ∷ rest) in
      All (λ a. Matches a ref) (suggest_allow_pattern ref)
vault_suggestions-Matches vault rest h =
    rw (suggestions_in_vault vault rest h)
      (exact refl, (vault_Matches vault rest, (star_Matches _, tt)))

other_suggestions-Matches :
    (ref : Bytes)
    → has_prefix ref (codes "op://") ≡ false
    → All (λ a. Matches a ref) (suggest_allow_pattern ref)
unfolding suggest_allow_pattern
other_suggestions-Matches ref h =
    (exact refl, rw (vault_pattern_other ref (split b'/' ref) h) (star_Matches ref, tt))

suggestions-Matches :
    (ref : Bytes) → WellFormed ref → All (λ a. Matches a ref) (suggest_allow_pattern ref)
suggestions-Matches ref (in_vault vault rest h e) = rw e (vault_suggestions-Matches vault rest h)
suggestions-Matches ref (other_scheme h) = other_suggestions-Matches ref h

All-imp :
    {A : Type 0} {P Q : A → Type 0} (xs : List A) → ((x : A) → P x → Q x) → All P xs → All Q xs
All-imp [] f h = tt
All-imp (x ∷ xs) f h = (f x h.0, All-imp xs f h.1)

-- Each pattern that is suggested for a well-formed reference, made into a rule and added to any
-- policy, lets the process that was denied read that reference. Where the process's path is not
-- known it lets every process read it.
pub suggestions-allow :
    (sha256 : Bytes → Bytes) (pol : Policy) (d : DenialEvent) (subj : Subject)
    → WellFormed d.reference
    → (d.path ≡ []) ⊎ ((subj.path ≢ []) × (d.path ≡ subj.path))
    → All
        (λ a.
          allowed sha256 (add_rule pol (create_policy_rule_from_denial d a)) subj d.reference
          ≡ true)
        (suggest_allow_pattern d.reference)
suggestions-allow sha256 pol d subj w who =
    All-imp (suggest_allow_pattern d.reference)
      (λ a m.
        allowed-add_rule sha256 pol _ subj d.reference
          (create-Grants sha256 d a d.reference subj who m))
      (suggestions-Matches d.reference w)

load_of_text :
    (unmarshal : Bytes → Option Policy) (dir b : Bytes) (files : Bytes → FileRead) (pol : Policy)
    → files (join_path dir (codes "policy.json")) ≡ FileRead.text b
    → unmarshal b ≡ some pol
    → load unmarshal (some dir) files ≡ (pol, join_path dir (codes "policy.json"), none)
unfolding load
load_of_text unmarshal dir b files pol f u = rw (f, u)

read-written : (files : Bytes → FileRead) (p : Bytes) (f : FileRead) → written files p f p ≡ f
unfolding written
read-written files p f = rw (=ᵇ_refl p)

-- The policy that a rule was added to is the policy that the next `Load` finds, with the rule, if
-- decoding gives back what was encoded.
pub load-add_rule_to_policy :
    (unmarshal : Bytes → Option Policy) (marshal : Policy → Option Bytes) (dir : Bytes)
    (read_file : Bytes → FileRead) (rule : Rule) (pol : Policy) (b : Bytes)
    → load unmarshal (some dir) read_file ≡ (pol, join_path dir (codes "policy.json"), none)
    → marshal (add_rule pol rule) ≡ some b
    → unmarshal b ≡ some (add_rule pol rule)
    → let (files, err) =
        add_rule_to_policy unmarshal marshal none (some dir) (some dir) read_file rule in
      (err ≡ none)
      × (load unmarshal (some dir) files
          ≡ (add_rule pol rule, join_path dir (codes "policy.json"), none))
unfolding add_rule_to_policy
load-add_rule_to_policy unmarshal marshal dir read_file rule pol b l m u =
    rw (l, m)
      (
        refl,
        load_of_text unmarshal dir b _ (add_rule pol rule)
            (read-written read_file _ (FileRead.text b)) u,
      )
