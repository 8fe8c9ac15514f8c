-- ===== src/Generics.antt =====
-- internal/util/generics.go: the generic helpers over slices. `comparable` types come with the
-- test that `==` is; the keys of `GroupBy` are texts, as in its one use.
pub mod Laws
use opx.Prelude.{ℕ, Bool, true, false, Option, none, some, List, [], ◌∷◌, ◌++◌, if◌then◌else◌}
use opx.Prelude.Bytes.{Bytes}
use opx.Dict.{Dict, lookup, insert}

module _ {ℓ} {T : Type ℓ} where
  unfoldable pub contains : (T → T → Bool) → List T → T → Bool
  contains eq [] item = false
  contains eq (s ∷ slice) item =
      let later = contains eq slice item in if eq s item then true else later

  unfoldable pub map_slice {κ} : {R : Type κ} → List T → (T → R) → List R
  map_slice [] fn = []
  map_slice (item ∷ slice) fn = fn item ∷ map_slice slice fn

  -- The loop of `Filter`, over the result so far.
  unfoldable pub filter_from : List T → List T → (T → Bool) → List T
  filter_from result [] predicate = result
  filter_from result (item ∷ slice) predicate =
      filter_from (if predicate item then result ++ item ∷ [] else result) slice predicate

  unfoldable pub filter_slice : List T → (T → Bool) → List T
  unfolding filter_from
  filter_slice slice predicate = filter_from [] slice predicate

  -- The zero value with `false` is `none`.
  unfoldable pub find_first : List T → (T → Bool) → Option T
  find_first [] predicate = none
  find_first (item ∷ slice) predicate =
      let later = find_first slice predicate in if predicate item then some item else later

  -- A missing key stands for the nil slice.
  unfoldable pub group_of : Option (List T) → List T
  group_of none = []
  group_of (some g) = g

  unfoldable pub group_from : Dict (List T) → List T → (T → Bytes) → Dict (List T)
  unfolding group_of
  group_from result [] key_fn = result
  group_from result (item ∷ slice) key_fn =
      group_from (insert (key_fn item) (group_of (lookup (key_fn item) result) ++ item ∷ []) result)
        slice key_fn

  unfoldable pub group_by : List T → (T → Bytes) → Dict (List T)
  unfolding group_from
  group_by slice key_fn = group_from [] slice key_fn
