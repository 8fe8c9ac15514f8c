-- ===== src/Strings.antt =====
-- The functions of Go's package strings that the program calls, over byte strings. White space is
-- the ASCII white space; the wider Unicode spaces that `TrimSpace` knows are left out.
pub mod Laws
use opx.Prelude.{
  ℕ, zero, suc, ◌+◌, ◌/◌, ◌%◌, Bool, true, false, ◌&&◌, ◌||◌, Option, none, some, List, [], ◌∷◌,
  ◌++◌, any, ◌==◌, ltb, if◌then◌else◌,
}
use opx.Prelude.Bytes.{Bytes, ◌=ᵇ◌}
use opx.Prelude.Int.{ℤ, pos, negsuc}

unfoldable pub has_prefix : Bytes → Bytes → Bool
has_prefix s [] = true
has_prefix [] (p ∷ ps) = false
has_prefix (c ∷ s) (p ∷ ps) = (c == p) && has_prefix s ps

unfoldable pub drop_prefix : Bytes → Bytes → Bytes
drop_prefix s [] = s
drop_prefix [] (p ∷ ps) = []
drop_prefix (c ∷ s) (p ∷ ps) = drop_prefix s ps

unfoldable pub trim_prefix : Bytes → Bytes → Bytes
unfolding has_prefix drop_prefix
trim_prefix s p = if has_prefix s p then drop_prefix s p else s

unfoldable pub has_suffix : Bytes → Bytes → Bool
unfolding ◌=ᵇ◌
has_suffix [] t = [] =ᵇ t
has_suffix (c ∷ s) t = ((c ∷ s) =ᵇ t) || has_suffix s t

unfoldable pub trim_suffix : Bytes → Bytes → Bytes
unfolding ◌=ᵇ◌
trim_suffix [] t = []
trim_suffix (c ∷ s) t = let rest = trim_suffix s t in if (c ∷ s) =ᵇ t then [] else c ∷ rest

unfoldable pub trim_left : (ℕ → Bool) → Bytes → Bytes
trim_left p [] = []
trim_left p (c ∷ s) = let rest = trim_left p s in if p c then rest else c ∷ s

keep_front : (ℕ → Bool) → ℕ → Bytes → Bytes
keep_front p c [] = if p c then [] else c ∷ []
keep_front p c (d ∷ r) = c ∷ d ∷ r

unfoldable pub trim_right : (ℕ → Bool) → Bytes → Bytes
unfolding keep_front
trim_right p [] = []
trim_right p (c ∷ s) = keep_front p c (trim_right p s)

unfoldable pub is_space : ℕ → Bool
is_space c = (c == 32) || (c == 9) || (c == 10) || (c == 11) || (c == 12) || (c == 13)

unfoldable pub trim_space : Bytes → Bytes
unfolding trim_left trim_right is_space
trim_space s = trim_right is_space (trim_left is_space s)

unfoldable pub push_first : ℕ → List Bytes → List Bytes
push_first c [] = (c ∷ []) ∷ []
push_first c (p ∷ ps) = (c ∷ p) ∷ ps

-- `strings.Split` at a separator of one byte.
unfoldable pub split : ℕ → Bytes → List Bytes
unfolding push_first
split sep [] = [] ∷ []
split sep (c ∷ s) = let rest = split sep s in if c == sep then [] ∷ rest else push_first c rest

-- `strings.SplitN(s, sep, 2)`: the first part, and the second where the separator occurs.
unfoldable pub split_two : ℕ → Bytes → Bytes × Option Bytes
split_two sep [] = ([], none)
split_two sep (c ∷ s) =
    let rest = split_two sep s in if c == sep then ([], some s) else (c ∷ rest.0, rest.1)

unfoldable pub join : Bytes → List Bytes → Bytes
join sep [] = []
join sep (p ∷ []) = p
join sep (p ∷ q ∷ ps) = p ++ (sep ++ join sep (q ∷ ps))

unfoldable pub contains_any : Bytes → Bytes → Bool
contains_any s chars = any (λ c. any (λ d. c == d) chars) s

-- `%d` and `strconv.Itoa`: the decimal digits, on fuel that the number itself covers.
decimal_from : ℕ → ℕ → Bytes → Bytes
decimal_from zero n acc = acc
decimal_from (suc fuel) n acc =
    let d = b'0' + n % 10 in
    let rest = decimal_from fuel (n / 10) (d ∷ acc) in if ltb n 10 then d ∷ acc else rest

unfoldable pub decimal : ℤ → Bytes
unfolding decimal_from
decimal (pos n) = decimal_from (suc n) n []
decimal (negsuc n) = b'-' ∷ decimal_from (suc (suc n)) (suc n) []
