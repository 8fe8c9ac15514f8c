-- ===== src/Prelude/Bytes.antt =====
-- Go strings: lists of bytes, with the equality that `==` and map keys use.
use Prim.Native.Char.{code}
use Prim.Native.String.{String}
use opx.Prelude.Tests.{◌==◌}
use Prim.Native.Nat.{ℕ}
use mathlib.Core.Path.{◌≡◌, refl}
use mathlib.Core.Logic.{◌↔◌, ◌≢◌}
use mathlib.Core.Bool.{Bool, true, false, ◌&&◌}
use mathlib.Core.List.{List, [], ◌∷◌}
use native.Mathlib.Omega.{arith}

abbrev pub Bytes : Type 0
Bytes = List ℕ

-- The code points of a literal; these are its bytes when the text is ASCII.
abbrev pub codes : String → Bytes
codes String.[] = []
codes (String.◌∷◌ c s) = code c ∷ codes s

infix 50 ◌=ᵇ◌
unfoldable pub ◌=ᵇ◌ : Bytes → Bytes → Bool
[] =ᵇ [] = true
[] =ᵇ (y ∷ ys) = false
(x ∷ xs) =ᵇ [] = false
(x ∷ xs) =ᵇ (y ∷ ys) = (x == y) && (xs =ᵇ ys)

eq_of : (s t : Bytes) → (s =ᵇ t) ≡ true → s ≡ t
unfolding ◌=ᵇ◌
eq_of [] [] h = refl
eq_of [] (y ∷ ys) h = cc
eq_of (x ∷ xs) [] h = cc
eq_of (x ∷ xs) (y ∷ ys) h = ground (arith, eq_of xs ys)

pub =ᵇ_refl : (s : Bytes) → (s =ᵇ s) ≡ true
unfolding ◌=ᵇ◌
=ᵇ_refl [] = refl
=ᵇ_refl (x ∷ xs) = ground (arith, =ᵇ_refl xs)

pub =ᵇ_iff : (s t : Bytes) → ((s =ᵇ t) ≡ true) ↔ (s ≡ t)
=ᵇ_iff s t = (eq_of s t, λ e. rw e (=ᵇ_refl t))

pub =ᵇ_ne : (s t : Bytes) → s ≢ t → (s =ᵇ t) ≡ false
=ᵇ_ne s t h = ground (arith, eq_of s t)
