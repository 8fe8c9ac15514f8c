-- ===== src/SafeString/Content.antt =====
-- What the text of a `SafeString` is after each method.
use opx.Prelude.{
  ℕ, zero, suc, ◌+◌, ◌≤◌, ◌≡◌, refl, ap, true, Option, none, some, [], ◌∷◌, ◌++◌, arith, length,
  take, drop, replicate, take-length, length-append, take-length-append, length-take_of_le,
  Option-cases, inl, inr, ◌↔◌,
}
use opx.Prelude.Int.{pos}
use opx.Prelude.Bytes.{Bytes, =ᵇ_iff}
use opx.SafeString.{
  SafeString, content, new_string, to_string, append, extend, truncate, wipe_from, equal, clone,
  from_bytes,
}

-- The slice lies within its array.
abbrev pub Fits : SafeString → Type 0
Fits s = elim s.len [ none ↦ Unit {0} | some n ↦ n ≤ length s.buffer ]

-- Reading back what `New` was given.
pub to_string-new_string : (t : Bytes) → to_string (some (new_string t)) ≡ t
unfolding to_string new_string
to_string-new_string t = take-length t

take_written :
    (n : ℕ) (xs ys zs : Bytes)
    → n ≤ length xs
    → take (n + length ys) (take n xs ++ ys ++ zs) ≡ take n xs ++ ys
take_written n xs ys zs h =
    let e : length (take n xs ++ ys) ≡ n + length ys =
      omega (arith, length-append (take n xs) ys, length-take_of_le n xs h) in
    rw (← e) (take-length-append (take n xs ++ ys) zs)

content-extend :
    (spare n : ℕ) (s : SafeString) (b : Bytes)
    → n ≤ length s.buffer
    → content (extend spare s n b) ≡ take n s.buffer ++ b
unfolding content extend
content-extend spare n s b h = ground (
  arith,
  take_written n s.buffer b (drop (n + length b) s.buffer) h,
  take_written n s.buffer b (replicate spare 0) h,
)

-- The text after an append is the old text and the new bytes, whether or not the array had room.
pub content-append :
    (spare : ℕ) (s : SafeString) (b : Bytes) → Fits s → content (append spare s b) ≡ content s ++ b
unfolding append content
content-append spare s b h = elim (Option-cases s.len) [
  | inl e ↦
      rw (e, append)
        (content-extend spare 0
          (record { buffer = replicate (length b) 0; len = some 0; stale = s.buffer ∷ s.stale }) b
          (omega arith))
  | inr (n, e) ↦ rw (e, append) (content-extend spare n s b (rw e at h))
]

take-wipe_from : (i n : ℕ) (b : Bytes) → take i (wipe_from i n b) ≡ take i b
unfolding wipe_from
take-wipe_from zero n b = refl
take-wipe_from (suc i) zero b = refl
take-wipe_from (suc i) (suc n) [] = refl
take-wipe_from (suc i) (suc n) (c ∷ b) = ap (◌∷◌ c) (take-wipe_from i n b)

take-take : (i n : ℕ) (b : Bytes) → i ≤ n → take i (take n b) ≡ take i b
take-take zero n b h = refl
take-take (suc i) zero b h = elim h [ ]
take-take (suc i) (suc n) [] h = refl
take-take (suc i) (suc n) (c ∷ b) h = ap (◌∷◌ c) (take-take i n b (omega arith))

take-take_of_ge : (k n : ℕ) (b : Bytes) → n ≤ k → take k (take n b) ≡ take n b
take-take_of_ge zero zero b h = refl
take-take_of_ge (suc k) zero b h = refl
take-take_of_ge zero (suc n) b h = elim h [ ]
take-take_of_ge (suc k) (suc n) [] h = refl
take-take_of_ge (suc k) (suc n) (c ∷ b) h = ap (◌∷◌ c) (take-take_of_ge k n b (omega arith))

take-nil : (k : ℕ) → take {A = ℕ} k [] ≡ []
take-nil zero = refl
take-nil (suc k) = refl

-- A truncation keeps the first bytes, as many as it is told, and no more.
pub content-truncate : (s : SafeString) (k : ℕ) → content (truncate s (pos k)) ≡ take k (content s)
unfolding truncate content
content-truncate s k = elim (Option-cases s.len) [
  | inl e ↦ ground (arith, take-nil k)
  | inr (n, e) ↦
      ground
        (arith, take-take_of_ge k n s.buffer, take-take k n s.buffer, take-wipe_from k n s.buffer)
]

-- `Equal` is equality of the texts, for two live objects.
pub equal_iff : (s t : Bytes) → (equal (some (new_string s)) (some (new_string t)) ≡ true) ↔ (s ≡ t)
unfolding equal new_string
equal_iff s t = rw (take-length s, take-length t) (=ᵇ_iff s t)

-- A clone has the text of the original.
pub to_string-clone : (s : Option SafeString) → to_string (some (clone s)) ≡ to_string s
unfolding to_string clone new_string from_bytes
to_string-clone none = refl
to_string-clone (some s) = elim (Option-cases s.len) [
  | inl e ↦ rw (e, clone, to_string)
  | inr (n, e) ↦ rw (e, clone, to_string) (take-length (take n s.buffer))
]
