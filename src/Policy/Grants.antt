-- ===== src/Policy/Grants.antt =====
-- The access decision against its specification: which rules grant a reference to a subject.
use mathlib.Core.List.{append_cancel_right}
use opx.Prelude.{
  ◌≡◌, ◌∙◌, ◌≢◌, ◌↔◌, ◌⊎◌, inl, inr, refl, sym, Bool, true, false, false≢true, ◌&&◌, ◌||◌, not,
  List, [], ◌∷◌, ◌++◌, arith, Bool-cases, if◌then◌else◌,
}
use opx.Prelude.Int.{ℤ, pos, negsuc}
use opx.Prelude.Bytes.{Bytes, codes, ◌=ᵇ◌, =ᵇ_iff, =ᵇ_refl}
use opx.Strings.{has_prefix, has_suffix, trim_prefix, trim_suffix}
use opx.Strings.Laws.{
  has_prefix-append, append-trim_prefix, trim_suffix-append_back, has_suffix-append,
}
use opx.Paths.{clean}
use opx.Policy.{
  Rule, Policy, Subject, eq_ℤ, match_ref, same_path, sha256_hex, allowed_by, allowed, no_rules,
}

-- A pattern stands for itself, and with a `*` at its end for all that begins with the rest of it.
pub data Matches (a ref : Bytes) : Type 0 where
  exact : ref ≡ a → Matches a ref
  prefix : (p r : Bytes) → a ≡ p ++ codes "*" → ref ≡ p ++ r → Matches a ref

-- Some element of a list has a property.
abbrev pub Some {ℓ} : {A : Type ℓ} → (A → Type 0) → List A → Type 0
Some P [] = ⊥
Some P (x ∷ xs) = P x ⊎ Some P xs

-- A rule grants what it names; a field that is not set does not restrict it.
pub record Grants (sha256 : Bytes → Bytes) (r : Rule) (subj : Subject) (ref : Bytes) : Type 0 where
  pub by_pid : (r.pid ≡ pos 0) ⊎ (r.pid ≡ subj.pid)
  pub by_path : (r.path ≡ []) ⊎ ((subj.path ≢ []) × (clean r.path ≡ clean subj.path))
  pub by_sum : (r.path_sha256 ≡ []) ⊎ (r.path_sha256 ≡ sha256_hex sha256 subj.path)
  pub by_ref : Some (λ a. Matches a ref) r.refs

eq_ℤ_iff : (a b : ℤ) → (eq_ℤ a b ≡ true) ↔ (a ≡ b)
eq_ℤ_iff (pos m) (pos n) = ground arith
eq_ℤ_iff (pos m) (negsuc n) = ground arith
eq_ℤ_iff (negsuc m) (pos n) = ground arith
eq_ℤ_iff (negsuc m) (negsuc n) = ground arith

abbrev star : Bytes
star = codes "*"

-- One round of the loop over the patterns.
hits : Bytes → Bytes → Bool
hits a ref =
    if a =ᵇ star
    then true
    else if has_suffix a star
    then has_prefix ref (trim_suffix a star)
    else ref =ᵇ a

match_ref-cons :
    (a : Bytes) (rest : List Bytes) (ref : Bytes)
    → match_ref (a ∷ rest) ref ≡ (hits a ref || match_ref rest ref)
unfolding match_ref hits
match_ref-cons a rest ref = ground arith

Matches-of-hits : (a ref : Bytes) → hits a ref ≡ true → Matches a ref
unfolding hits
Matches-of-hits a ref h = elim (Bool-cases (a =ᵇ star)) [
  | inl t ↦ prefix [] ref ((=ᵇ_iff a star).0 t) refl
  | inr t ↦ elim (Bool-cases (has_suffix a star)) [
    | inl s ↦
        let q : has_prefix ref (trim_suffix a star) ≡ true = ground (arith, h, t, s) in
        prefix (trim_suffix a star) (trim_prefix ref (trim_suffix a star))
          (sym (trim_suffix-append_back a star s)) (sym (append-trim_prefix ref _ q))
    | inr s ↦ exact ((=ᵇ_iff ref a).0 (ground (arith, h, t, s)))
  ]
]

-- Where the pattern ends in a star, what stands before the star is a prefix.
hits_of_prefix : (a ref p r : Bytes) → a ≡ p ++ star → ref ≡ p ++ r → hits a ref ≡ true
unfolding hits
hits_of_prefix a ref p r ea er =
    let s : has_suffix a star ≡ true = rw ea (has_suffix-append p star) in
    let t : trim_suffix a star ≡ p =
      append_cancel_right _ _ star (trim_suffix-append_back a star s ∙ ea) in
    let q : has_prefix ref (trim_suffix a star) ≡ true = rw (t, er) (has_prefix-append p r) in
    ground (arith, s, q)

hits_of_exact : (a ref : Bytes) → ref ≡ a → hits a ref ≡ true
hits_of_exact a ref e = elim (Bool-cases (has_suffix a star)) [
  | inl s ↦
      hits_of_prefix a ref (trim_suffix a star) star (sym (trim_suffix-append_back a star s))
        (e ∙ sym (trim_suffix-append_back a star s))
  | inr s ↦ unfold hits in ground (arith, s, =ᵇ_iff ref a)
]

hits-of-Matches : (a ref : Bytes) → Matches a ref → hits a ref ≡ true
hits-of-Matches a ref (exact e) = hits_of_exact a ref e
hits-of-Matches a ref (prefix p r ea er) = hits_of_prefix a ref p r ea er

or_iff : {P Q : Type 0} (b c : Bool) → (b ≡ true) ↔ P → (c ≡ true) ↔ Q → ((b || c) ≡ true) ↔ (P ⊎ Q)
or_iff true c p q = ((λ h. inl (p.0 refl)), (λ h. refl))
or_iff false c p q =
    ((λ h. inr (q.0 h)), (λ h. elim h [ inl x ↦ absurd (false≢true (p.1 x)) | inr y ↦ q.1 y ]))

and_iff :
    {P Q : Type 0} (b c : Bool) → (b ≡ true) ↔ P → (c ≡ true) ↔ Q → ((b && c) ≡ true) ↔ (P × Q)
and_iff true c p q = ((λ h. (p.0 refl, q.0 h)), (λ h. q.1 h.1))
and_iff false c p q = ((λ h. absurd (false≢true h)), (λ h. p.1 h.0))

not_iff : {P : Type 0} (b : Bool) → (b ≡ true) ↔ P → (not b ≡ true) ↔ (P → ⊥)
not_iff true p = ((λ h. absurd (false≢true h)), (λ h. absurd (h (p.0 refl))))
not_iff false p = ((λ h x. false≢true (p.1 x)), (λ h. refl))

-- The first alternative of the second part comes first.
past : {P Q R : Type 0} → P ⊎ (Q ⊎ R) → Q ⊎ (P ⊎ R)
past (inl p) = inr (inl p)
past (inr (inl q)) = inl q
past (inr (inr r)) = inr (inr r)

-- The loop over the patterns finds a match exactly when one of them matches.
pub match_ref_iff :
    (refs : List Bytes) (ref : Bytes) → (match_ref refs ref ≡ true) ↔ Some (λ a. Matches a ref) refs
match_ref_iff [] ref = unfold match_ref in ((λ h. false≢true h), (λ h. absurd h))
match_ref_iff (a ∷ rest) ref = rw (match_ref-cons a rest ref) (
    or_iff (hits a ref) (match_ref rest ref) (Matches-of-hits a ref, hits-of-Matches a ref)
      (match_ref_iff rest ref))

same_path_iff : (a b : Bytes) → a ≢ [] → (same_path a b ≡ true) ↔ ((b ≢ []) × (clean a ≡ clean b))
unfolding same_path
same_path_iff a b ne = (
  (λ h. ((λ e. ground (arith, h, e, =ᵇ_iff b [])), ground (arith, h, =ᵇ_iff (clean a) (clean b)))),
  (λ h. ground (arith, h.0, h.1, =ᵇ_iff (clean a) (clean b), =ᵇ_iff a [], =ᵇ_iff b [])),
)

module _ (sha256 : Bytes → Bytes) (subj : Subject) (ref : Bytes) where
  -- One round of the loop over the rules.
  path_ok : Bytes → Bool
  path_ok p = (p =ᵇ []) || same_path p subj.path

  sum_ok : Bytes → Bool
  sum_ok s = (s =ᵇ []) || (s =ᵇ sha256_hex sha256 subj.path)

  pid_ok : ℤ → Bool
  pid_ok n = eq_ℤ n (pos 0) || eq_ℤ n subj.pid

  rule_ok : Rule → Bool
  rule_ok r = pid_ok r.pid && path_ok r.path && sum_ok r.path_sha256 && match_ref r.refs ref

  allowed_by-cons :
      (pol : Policy) (r : Rule) (rs : List Rule)
      → allowed_by sha256 pol subj ref (r ∷ rs) ≡ (rule_ok r || allowed_by sha256 pol subj ref rs)
  unfolding allowed_by rule_ok pid_ok path_ok sum_ok
  allowed_by-cons pol r rs = ground arith

  path_ok_iff :
      (p : Bytes)
      → (path_ok p ≡ true) ↔ ((p ≡ []) ⊎ ((subj.path ≢ []) × (clean p ≡ clean subj.path)))
  unfolding path_ok
  path_ok_iff [] = ((λ h. inl refl), (λ h. ground (arith, =ᵇ_refl [])))
  path_ok_iff (c ∷ p) =
      or_iff ((c ∷ p) =ᵇ []) (same_path (c ∷ p) subj.path) (=ᵇ_iff (c ∷ p) [])
        (same_path_iff (c ∷ p) subj.path (λ e. cc))

  rule_ok_iff : (r : Rule) → (rule_ok r ≡ true) ↔ Grants sha256 r subj ref
  unfolding rule_ok pid_ok sum_ok
  rule_ok_iff r = (
    (λ h.
        let g = parts.0 h in
        record { by_pid = g.0.0.0; by_path = g.0.0.1; by_sum = g.0.1; by_ref = g.1 }),
    (λ g. parts.1 (((g.by_pid, g.by_path), g.by_sum), g.by_ref)),
  )
    where
      pid_part : (pid_ok r.pid ≡ true) ↔ ((r.pid ≡ pos 0) ⊎ (r.pid ≡ subj.pid))
      pid_part = or_iff _ _ (eq_ℤ_iff r.pid (pos 0)) (eq_ℤ_iff r.pid subj.pid)

      sum_part :
          (sum_ok r.path_sha256 ≡ true)
          ↔ ((r.path_sha256 ≡ []) ⊎ (r.path_sha256 ≡ sha256_hex sha256 subj.path))
      sum_part = or_iff _ _ (=ᵇ_iff r.path_sha256 []) (=ᵇ_iff r.path_sha256 _)

      parts : (rule_ok r ≡ true) ↔ (
          ((((r.pid ≡ pos 0) ⊎ (r.pid ≡ subj.pid))
              × ((r.path ≡ []) ⊎ ((subj.path ≢ []) × (clean r.path ≡ clean subj.path))))
            × ((r.path_sha256 ≡ []) ⊎ (r.path_sha256 ≡ sha256_hex sha256 subj.path)))
          × Some (λ a. Matches a ref) r.refs)
      parts =
          and_iff _ _ (and_iff _ _ (and_iff _ _ pid_part (path_ok_iff r.path)) sum_part)
            (match_ref_iff r.refs ref)

  allowed_by_iff :
      (pol : Policy) (rs : List Rule)
      → (allowed_by sha256 pol subj ref rs ≡ true)
        ↔ ((pol.default_deny ≡ false) ⊎ Some (λ r. Grants sha256 r subj ref) rs)
  allowed_by_iff pol [] = unfold allowed_by in ((λ h. ground arith), (λ h. ground arith))
  allowed_by_iff pol (r ∷ rs) =
      let step = or_iff _ _ (rule_ok_iff r) (allowed_by_iff pol rs) in
      rw (allowed_by-cons pol r rs) ((λ h. past (step.0 h)), (λ h. step.1 (past h)))

  -- The early return for no rules agrees with the loop.
  early_return :
      (pol : Policy) (rs : List Rule)
      → (if no_rules rs && not pol.default_deny then true else allowed_by sha256 pol subj ref rs)
        ≡ allowed_by sha256 pol subj ref rs
  early_return pol [] = unfold no_rules allowed_by in ground arith
  early_return pol (r ∷ rs) = unfold no_rules in refl

  -- The decision: a subject may read a reference exactly when the policy does not deny by default,
  -- or one of its rules grants the reference to the subject.
  pub allowed_iff :
      (pol : Policy)
      → (allowed sha256 pol subj ref ≡ true)
        ↔ ((pol.default_deny ≡ false) ⊎ Some (λ r. Grants sha256 r subj ref) pol.allow)
  unfolding allowed
  allowed_iff pol = rw (early_return pol pol.allow) (allowed_by_iff pol pol.allow)
