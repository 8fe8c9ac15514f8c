-- ===== src/Dict.antt =====
-- Go's `map[string]V` as an association list. No operation of the program depends on the order in
-- which a map is ranged over, except where a comment says so.
use opx.Prelude.{
  suc, ◌≡◌, refl, ap, Option, none, some, List, [], ◌∷◌, arith, length, any, false, if◌then◌else◌,
}
use opx.Prelude.Bytes.{Bytes, ◌=ᵇ◌, =ᵇ_iff, =ᵇ_refl}

abbrev pub Dict {ℓ} : Type ℓ → Type ℓ
Dict V = List (Bytes × V)

module _ {ℓ} {V : Type ℓ} where
  -- v, ok := d[k]
  unfoldable pub lookup : Bytes → Dict V → Option V
  unfolding ◌=ᵇ◌
  lookup k [] = none
  lookup k ((j, v) ∷ d) = if j =ᵇ k then some v else lookup k d

  -- d[k] = v
  unfoldable pub insert : Bytes → V → Dict V → Dict V
  unfolding ◌=ᵇ◌
  insert k v [] = (k, v) ∷ []
  insert k v ((j, w) ∷ d) = if j =ᵇ k then (k, v) ∷ d else (j, w) ∷ insert k v d

  -- delete(d, k)
  unfoldable pub delete : Bytes → Dict V → Dict V
  unfolding ◌=ᵇ◌
  delete k [] = []
  delete k ((j, w) ∷ d) = let rest = delete k d in if j =ᵇ k then rest else (j, w) ∷ rest

  -- The keys, in the order in which a `range` yields them.
  unfoldable pub keys : Dict V → List Bytes
  keys [] = []
  keys ((j, w) ∷ d) = j ∷ keys d

  pub lookup-insert :
      (k j : Bytes) (v : V) (d : Dict V)
      → lookup j (insert k v d) ≡ (if k =ᵇ j then some v else lookup j d)
  unfolding lookup insert
  lookup-insert k j v [] = refl
  lookup-insert k j v ((i, w) ∷ d) =
      ground (arith, =ᵇ_iff k j, =ᵇ_iff i k, =ᵇ_iff i j, lookup-insert k j v d)

  pub lookup-insert_self : (k : Bytes) (v : V) (d : Dict V) → lookup k (insert k v d) ≡ some v
  lookup-insert_self k v d = rw (lookup-insert k k v d, =ᵇ_refl k)

  pub lookup-delete :
      (k j : Bytes) (d : Dict V) → lookup j (delete k d) ≡ (if k =ᵇ j then none else lookup j d)
  unfolding lookup delete
  lookup-delete k j [] = ground arith
  lookup-delete k j ((i, w) ∷ d) =
      ground (arith, =ᵇ_iff k j, =ᵇ_iff i k, =ᵇ_iff i j, lookup-delete k j d)

  pub length-keys : (d : Dict V) → length (keys d) ≡ length d
  unfolding keys
  length-keys [] = refl
  length-keys ((j, w) ∷ d) = ap suc (length-keys d)

  -- A map in which no key is found is empty.
  pub eq-nil_of_lookup : (d : Dict V) → ((k : Bytes) → lookup k d ≡ none) → d ≡ []
  unfolding lookup
  eq-nil_of_lookup [] h = refl
  eq-nil_of_lookup ((j, w) ∷ d) h = ground (arith, h j, =ᵇ_refl j)

  -- A key that the map holds is among its keys.
  pub lookup_of_not_key :
      (k : Bytes) (d : Dict V) → any (λ j. j =ᵇ k) (keys d) ≡ false → lookup k d ≡ none
  unfolding lookup keys
  lookup_of_not_key k [] h = refl
  lookup_of_not_key k ((j, w) ∷ d) h = ground (arith, lookup_of_not_key k d)
