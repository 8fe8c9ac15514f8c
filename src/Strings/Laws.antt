-- ===== src/Strings/Laws.antt =====
-- What the string functions compute, as equations with `++`.

use opx.Prelude.{
  ℕ, ◌≡◌, ◌≢◌, refl, sym, ap, true, Option, none, some, [], ◌∷◌, ◌++◌, arith, All, Bool-cases, inl,
  inr,
}
use opx.Prelude.Bytes.{Bytes, ◌=ᵇ◌, =ᵇ_iff, =ᵇ_refl}
use opx.Strings.{
  has_prefix, drop_prefix, trim_prefix, has_suffix, trim_suffix, split, push_first, split_two,
}

pub has_prefix-append : (p r : Bytes) → has_prefix (p ++ r) p ≡ true
unfolding has_prefix
has_prefix-append [] [] = refl
has_prefix-append [] (c ∷ r) = refl
has_prefix-append (c ∷ p) r = ground (arith, has_prefix-append p r)

append-of-has_prefix : (s p : Bytes) → has_prefix s p ≡ true → p ++ drop_prefix s p ≡ s
unfolding has_prefix drop_prefix
append-of-has_prefix [] [] h = refl
append-of-has_prefix (c ∷ s) [] h = refl
append-of-has_prefix [] (p ∷ ps) h = cc
append-of-has_prefix (c ∷ s) (p ∷ ps) h = ground (arith, append-of-has_prefix s ps)

drop_prefix-append : (p r : Bytes) → drop_prefix (p ++ r) p ≡ r
unfolding drop_prefix
drop_prefix-append [] [] = refl
drop_prefix-append [] (c ∷ r) = refl
drop_prefix-append (c ∷ p) r = drop_prefix-append p r

pub trim_prefix-append : (p r : Bytes) → trim_prefix (p ++ r) p ≡ r
unfolding trim_prefix
trim_prefix-append p r = rw (has_prefix-append p r) (drop_prefix-append p r)

pub append-trim_prefix : (s p : Bytes) → has_prefix s p ≡ true → p ++ trim_prefix s p ≡ s
unfolding trim_prefix
append-trim_prefix s p h = rw h (append-of-has_prefix s p h)

pub trim_suffix-append_back : (s t : Bytes) → has_suffix s t ≡ true → trim_suffix s t ++ t ≡ s
unfolding has_suffix trim_suffix
trim_suffix-append_back [] t h = ground (arith, =ᵇ_iff [] t)
trim_suffix-append_back (c ∷ s) t h = elim (Bool-cases ((c ∷ s) =ᵇ t)) [
  | inl e ↦ rw e (sym ((=ᵇ_iff (c ∷ s) t).0 e))
  | inr e ↦ rw e (ap (◌∷◌ c) (trim_suffix-append_back s t (rw e at h)))
]

pub has_suffix-append : (s t : Bytes) → has_suffix (s ++ t) t ≡ true
unfolding has_suffix
has_suffix-append [] [] = refl
has_suffix-append [] (c ∷ t) = ground (arith, =ᵇ_refl (c ∷ t))
has_suffix-append (c ∷ s) t = ground (arith, has_suffix-append s t)

-- The two parts, with the separator between them, spell the text.
abbrev pub Rejoined : ℕ → Bytes → Bytes × Option Bytes → Type 0
Rejoined sep s (p, none) = p ≡ s
Rejoined sep s (p, some q) = p ++ sep ∷ q ≡ s

abbrev pub Lacks : ℕ → Bytes → Type 0
Lacks b = All (λ c. c ≢ b)

pub split_two-append :
    (sep : ℕ) (p q : Bytes) → Lacks sep p → split_two sep (p ++ sep ∷ q) ≡ (p, some q)
unfolding split_two
split_two-append sep [] q h = ground arith
split_two-append sep (c ∷ p) q h = ground (arith, split_two-append sep p q h.1)

pub split_two_absent : (sep : ℕ) (p : Bytes) → Lacks sep p → split_two sep p ≡ (p, none)
unfolding split_two
split_two_absent sep [] h = refl
split_two_absent sep (c ∷ p) h = ground (arith, split_two_absent sep p h.1)

pub split-append :
    (sep : ℕ) (p r : Bytes) → Lacks sep p → split sep (p ++ sep ∷ r) ≡ p ∷ split sep r
unfolding split push_first
split-append sep [] r h = ground arith
split-append sep (c ∷ p) r h = ground (arith, split-append sep p r h.1)

pub split_absent : (sep : ℕ) (p : Bytes) → Lacks sep p → split sep p ≡ p ∷ []
unfolding split push_first
split_absent sep [] h = refl
split_absent sep (c ∷ p) h = ground (arith, split_absent sep p h.1)
