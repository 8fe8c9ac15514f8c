-- ===== src/SafeString/Zeroing.antt =====
-- What `Zero` wipes: every array that the object has written, but for those that `Append` left.
use opx.Prelude.{
  ℕ, zero, suc, ◌+◌, ◌≤◌, ◌<◌, ◌≡◌, refl, ap, Option, none, some, List, [], ◌∷◌, ◌++◌, arith,
  length, take, drop, replicate, length-append, length-take_of_le, drop-length-append, drop-length,
  All, Option-cases, inl, inr, leb, Bool-cases,
}
use opx.Prelude.Int.{ℤ}
use opx.Prelude.Bytes.{Bytes}
use opx.SafeString.{
  SafeString, new_string, zero_data, append, extend, truncate, shorten, wipe, wipe_from, clip,
}

abbrev pub IsZero : Bytes → Type 0
IsZero = All (λ c. c ≡ 0)

abbrev IsCleanAt : Option ℕ → Bytes → Type 0
IsCleanAt none b = IsZero b
IsCleanAt (some n) b = (n ≤ length b) × IsZero (drop n b)

-- The slice lies within the array, and the bytes of the array beyond the slice are zero.
abbrev pub IsClean : SafeString → Type 0
IsClean s = IsCleanAt s.len s.buffer

-- The slice is nil and the array all zero.
abbrev pub IsWiped : SafeString → Type 0
IsWiped s = (s.len ≡ none) × IsZero s.buffer

IsZero-wipe : (n : ℕ) (b : Bytes) → IsZero (drop n b) → IsZero (wipe n b)
unfolding wipe
IsZero-wipe zero b h = h
IsZero-wipe (suc n) [] h = tt
IsZero-wipe (suc n) (c ∷ b) h = (refl, IsZero-wipe n b h)

drop-wipe : (n : ℕ) (b : Bytes) → drop n (wipe n b) ≡ drop n b
unfolding wipe
drop-wipe zero b = refl
drop-wipe (suc n) [] = refl
drop-wipe (suc n) (c ∷ b) = drop-wipe n b

-- Zero of a clean object leaves no byte of its array.
pub zero_data-IsWiped : (s : SafeString) → IsClean s → IsWiped (zero_data s)
unfolding zero_data
zero_data-IsWiped s h = elim (Option-cases s.len) [
  | inl e ↦ rw (e, zero_data) (e, rw e at h)
  | inr (n, e) ↦
      let c : IsCleanAt (some n) s.buffer = rw e at h in
      rw (e, zero_data) (refl, IsZero-wipe n (wipe n s.buffer) (rw (drop-wipe n s.buffer) c.1))
]

IsZero-replicate : (n : ℕ) → IsZero (replicate n 0)
IsZero-replicate zero = tt
IsZero-replicate (suc n) = (refl, IsZero-replicate n)

IsZero-drop : (n : ℕ) (b : Bytes) → IsZero b → IsZero (drop n b)
IsZero-drop zero b h = h
IsZero-drop (suc n) [] h = tt
IsZero-drop (suc n) (c ∷ b) h = IsZero-drop n b h.1

IsZero-drop_mono : (m n : ℕ) (b : Bytes) → m ≤ n → IsZero (drop m b) → IsZero (drop n b)
IsZero-drop_mono zero n b le h = IsZero-drop n b h
IsZero-drop_mono (suc m) zero b le h = elim le [ ]
IsZero-drop_mono (suc m) (suc n) [] le h = tt
IsZero-drop_mono (suc m) (suc n) (c ∷ b) le h = IsZero-drop_mono m n b (omega arith) h

IsZero-wipe_from : (k n : ℕ) (b : Bytes) → IsZero (drop n b) → IsZero (drop k (wipe_from k n b))
unfolding wipe_from
IsZero-wipe_from zero n b h = IsZero-wipe n b h
IsZero-wipe_from (suc k) zero b h = IsZero-drop (suc k) b h
IsZero-wipe_from (suc k) (suc n) [] h = tt
IsZero-wipe_from (suc k) (suc n) (c ∷ b) h = IsZero-wipe_from k n b h

length-wipe : (n : ℕ) (b : Bytes) → length (wipe n b) ≡ length b
unfolding wipe
length-wipe zero b = refl
length-wipe (suc n) [] = refl
length-wipe (suc n) (c ∷ b) = ap suc (length-wipe n b)

length-wipe_from : (k n : ℕ) (b : Bytes) → length (wipe_from k n b) ≡ length b
unfolding wipe_from
length-wipe_from zero n b = length-wipe n b
length-wipe_from (suc k) zero b = refl
length-wipe_from (suc k) (suc n) [] = refl
length-wipe_from (suc k) (suc n) (c ∷ b) = ap suc (length-wipe_from k n b)

pub new_string-IsClean : (t : Bytes) → IsClean (new_string t)
unfolding new_string
new_string-IsClean t = rw (drop-length t) (omega arith, tt)

-- A slice that has just been written is followed by what stood behind it, `rest`.
written-IsClean :
    (n : ℕ) (a b rest : Bytes)
    → n ≤ length a
    → IsZero rest
    → IsCleanAt (some (n + length b)) (take n a ++ b ++ rest)
written-IsClean n a b rest h z =
    let e : length (take n a ++ b) ≡ n + length b =
      omega (arith, length-append (take n a) b, length-take_of_le n a h) in
    rw (← e) (
      omega (arith, length-append (take n a ++ b) rest),
      rw (drop-length-append (take n a ++ b) rest) z,
    )

extend-IsClean :
    (spare n : ℕ) (s : SafeString) (b : Bytes)
    → IsCleanAt (some n) s.buffer
    → IsClean (extend spare s n b)
unfolding extend
extend-IsClean spare n s b (h, z) = elim (Bool-cases (leb (n + length b) (length s.buffer))) [
  | inl e ↦ rw e (
      written-IsClean n s.buffer b _ h (IsZero-drop_mono n (n + length b) s.buffer (omega arith) z))
  | inr e ↦ rw e (written-IsClean n s.buffer b _ h (IsZero-replicate spare))
]

append-IsClean : (spare : ℕ) (s : SafeString) (b : Bytes) → IsClean s → IsClean (append spare s b)
unfolding append
append-IsClean spare s b h = elim (Option-cases s.len) [
  | inl e ↦
      rw (e, append)
        (extend-IsClean spare 0
          (record { buffer = replicate (length b) 0; len = some 0; stale = s.buffer ∷ s.stale }) b
          (omega arith, IsZero-replicate (length b)))
  | inr (n, e) ↦ rw (e, append) (extend-IsClean spare n s b (rw e at h))
]

shorten-IsClean :
    (k n : ℕ) (s : SafeString)
    → s.len ≡ some n
    → IsCleanAt (some n) s.buffer
    → IsClean (shorten s k n)
unfolding shorten
shorten-IsClean k n s e (h, z) = elim (Bool-cases (leb n k)) [
  | inl t ↦ rw t (rw e (h, z))
  | inr t ↦ rw t (ground (arith, length-wipe_from k n s.buffer), IsZero-wipe_from k n s.buffer z)
]

truncate-IsClean : (s : SafeString) (k : ℤ) → IsClean s → IsClean (truncate s k)
unfolding truncate
truncate-IsClean s k h = elim (Option-cases s.len) [
  | inl e ↦ rw (e, truncate) h
  | inr (n, e) ↦ rw (e, truncate) (shorten-IsClean (clip k) n s e (rw e at h))
]

pub zero_data-IsClean : (s : SafeString) → IsClean s → IsClean (zero_data s)
zero_data-IsClean s h = let (e, z) = zero_data-IsWiped s h in rw e z

-- The methods that write.
pub data Write : Type 0 where
  appends : ℕ → Bytes → Write
  truncates : ℤ → Write
  zeroes : Write

abbrev pub write : SafeString → Write → SafeString
write s (appends spare b) = append spare s b
write s (truncates k) = truncate s k
write s zeroes = zero_data s

abbrev pub writes : SafeString → List Write → SafeString
writes s [] = s
writes s (w ∷ ws) = writes (write s w) ws

write-IsClean : (s : SafeString) (w : Write) → IsClean s → IsClean (write s w)
write-IsClean s (appends spare b) h = append-IsClean spare s b h
write-IsClean s (truncates k) h = truncate-IsClean s k h
write-IsClean s zeroes h = zero_data-IsClean s h

writes-IsClean : (s : SafeString) (ws : List Write) → IsClean s → IsClean (writes s ws)
writes-IsClean s [] h = h
writes-IsClean s (w ∷ ws) h = writes-IsClean (write s w) ws (write-IsClean s w h)

-- After any appends, truncations and wipes of a new object, `Zero` leaves its slice nil and every
-- byte of the array that it then has zero.
pub zero_data-writes-IsWiped :
    (t : Bytes) (ws : List Write) → IsWiped (zero_data (writes (new_string t) ws))
zero_data-writes-IsWiped t ws =
    zero_data-IsWiped _ (writes-IsClean (new_string t) ws (new_string-IsClean t))

-- An append that outgrows the array leaves the old array as it was, beyond the reach of `Zero`.
pub stale-append :
    (spare n : ℕ) (s : SafeString) (b : Bytes)
    → s.len ≡ some n
    → length s.buffer < n + length b
    → (zero_data (append spare s b)).stale ≡ s.buffer ∷ s.stale
unfolding append extend zero_data
stale-append spare n s b e h = rw (e, append) (ground arith)
