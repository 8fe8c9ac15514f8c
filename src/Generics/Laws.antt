-- ===== src/Generics/Laws.antt =====
-- What the helpers over slices compute, by plain recursions.
use mathlib.Core.List.{append_assoc, append-nil}
use opx.Prelude.{
  ◌≡◌, ◌∙◌, refl, sym, ap, Bool, true, List, [], ◌∷◌, ◌++◌, Bool-cases, inl, inr, All,
  if◌then◌else◌,
}
use opx.Prelude.Bytes.{Bytes, ◌=ᵇ◌, =ᵇ_iff}
use opx.Dict.{Dict, lookup, insert, lookup-insert}
use opx.Generics.{filter_from, filter_slice, group_of, group_from, group_by}

module _ {ℓ} {T : Type ℓ} where
  -- The elements that pass, in order.
  abbrev pub passing : (T → Bool) → List T → List T
  passing p [] = []
  passing p (x ∷ xs) = let rest = passing p xs in if p x then x ∷ rest else rest

  filter_from-passing :
      (out xs : List T) (p : T → Bool) → filter_from out xs p ≡ out ++ passing p xs
  unfolding filter_from
  filter_from-passing out [] p = sym (append-nil out)
  filter_from-passing out (x ∷ xs) p = elim (Bool-cases (p x)) [
    | inl t ↦ rw t (filter_from-passing (out ++ x ∷ []) xs p ∙ append_assoc out (x ∷ []) _)
    | inr t ↦ rw t (filter_from-passing out xs p)
  ]

  -- `Filter` keeps the elements that pass, in their order.
  pub filter_slice-passing : (xs : List T) (p : T → Bool) → filter_slice xs p ≡ passing p xs
  unfolding filter_slice
  filter_slice-passing xs p = filter_from-passing [] xs p

  pub All-passing : (p : T → Bool) (xs : List T) → All (λ x. p x ≡ true) (passing p xs)
  All-passing p [] = tt
  All-passing p (x ∷ xs) = elim (Bool-cases (p x)) [
    | inl t ↦ rw t (t, All-passing p xs)
    | inr t ↦ rw t (All-passing p xs)
  ]

  group_of-insert :
      (d : Dict (List T)) (j k : Bytes) (x : T)
      → group_of (lookup k (insert j (group_of (lookup j d) ++ x ∷ []) d))
        ≡ (if j =ᵇ k then group_of (lookup k d) ++ x ∷ [] else group_of (lookup k d))
  group_of-insert d j k x = elim (Bool-cases (j =ᵇ k)) [
    | inl t ↦
        rw (lookup-insert j k (group_of (lookup j d) ++ x ∷ []) d, t)
          (unfold group_of in ap (λ i. group_of (lookup i d) ++ x ∷ []) ((=ᵇ_iff j k).0 t))
    | inr t ↦ rw (lookup-insert j k (group_of (lookup j d) ++ x ∷ []) d, t) refl
  ]

  group_from-passing :
      (d : Dict (List T)) (xs : List T) (key_fn : T → Bytes) (k : Bytes)
      → group_of (lookup k (group_from d xs key_fn))
        ≡ group_of (lookup k d) ++ passing (λ x. key_fn x =ᵇ k) xs
  unfolding group_from
  group_from-passing d [] key_fn k = sym (append-nil _)
  group_from-passing d (x ∷ xs) key_fn k =
      let later =
        group_from-passing (insert (key_fn x) (group_of (lookup (key_fn x) d) ++ x ∷ []) d) xs
          key_fn k in
      elim (Bool-cases (key_fn x =ᵇ k)) [
        | inl t ↦
            later
            ∙ rw (group_of-insert d (key_fn x) k x, t)
                (append_assoc (group_of (lookup k d)) (x ∷ []) _)
        | inr t ↦ later ∙ rw (group_of-insert d (key_fn x) k x, t) refl
      ]

  -- `GroupBy` puts the elements with one key into one group, in their order, and loses none.
  pub group_by-passing :
      (xs : List T) (key_fn : T → Bytes) (k : Bytes)
      → group_of (lookup k (group_by xs key_fn)) ≡ passing (λ x. key_fn x =ᵇ k) xs
  unfolding group_by group_of lookup
  group_by-passing xs key_fn k = group_from-passing [] xs key_fn k
