-- ===== src/SafeString.antt =====
-- internal/safestring/safestring.go: a text in an array that can be wiped.
--
-- A `SafeString` keeps the array that its slice `data` points to (`buffer`), the slice's length
-- (`none` is a nil slice), and the arrays that `append` has left behind (`stale`), which stay in
-- memory until the garbage collector takes them. A method's receiver may be a nil pointer, so the
-- methods take an `Option`; those that write return the object that the pointer then points to.
pub mod Zeroing
pub mod Content
pub mod Pool
use opx.Prelude.{
  ℕ, zero, suc, ◌+◌, ◌≡◌, Bool, true, false, Option, none, some, List, [], ◌∷◌, ◌++◌, length, take,
  drop, replicate, leb, if◌then◌else◌, ◌==◌,
}
use opx.Prelude.Int.{ℤ, pos, negsuc}
use opx.Prelude.Bytes.{Bytes, ◌=ᵇ◌}

pub record SafeString : Type 0 where
  pub buffer : Bytes
  pub len : Option ℕ
  pub stale : List Bytes

-- The bytes of the slice `data`.
unfoldable pub content : SafeString → Bytes
content s = elim s.len [ none ↦ [] | some n ↦ take n s.buffer ]

unfoldable pub new_string : Bytes → SafeString
new_string s = record { buffer = s; len = some (length s); stale = [] }

unfoldable pub from_bytes : Bytes → SafeString
from_bytes b = record { buffer = b; len = some (length b); stale = [] }

unfoldable pub to_string : Option SafeString → Bytes
unfolding content
to_string none = []
to_string (some s) = content s

-- A nil slice is `none`.
unfoldable pub bytes : Option SafeString → Option Bytes
bytes none = none
bytes (some s) = elim s.len [ none ↦ none | some n ↦ some (take n s.buffer) ]

unfoldable pub len : Option SafeString → ℕ
len none = 0
len (some s) = elim s.len [ none ↦ 0 | some n ↦ n ]

unfoldable pub is_empty : Option SafeString → Bool
unfolding len
is_empty s = len s == 0

-- Two slices of which one may be nil; `ConstantTimeCompare` gives 1 for equal contents only.
equal_data : Option Bytes → Option Bytes → Bool
unfolding ◌=ᵇ◌
equal_data none none = true
equal_data none (some y) = false
equal_data (some x) none = false
equal_data (some x) (some y) = x =ᵇ y

unfoldable pub equal : Option SafeString → Option SafeString → Bool
unfolding bytes equal_data
equal none none = true
equal none (some t) = false
equal (some s) none = false
equal (some s) (some t) = equal_data (bytes (some s)) (bytes (some t))

equal_text : Option Bytes → Bytes → Bool
unfolding ◌=ᵇ◌
equal_text none t = t =ᵇ []
equal_text (some x) t = x =ᵇ t

unfoldable pub equal_string : Option SafeString → Bytes → Bool
unfolding bytes equal_text
equal_string s t = equal_text (bytes s) t

clone_data : Option Bytes → SafeString
unfolding new_string from_bytes
clone_data none = new_string []
clone_data (some b) = from_bytes b

unfoldable pub clone : Option SafeString → SafeString
unfolding bytes clone_data
clone s = clone_data (bytes s)

-- `for i := range n { b[i] = 0 }`
unfoldable pub wipe : ℕ → Bytes → Bytes
wipe zero b = b
wipe (suc n) [] = []
wipe (suc n) (c ∷ b) = 0 ∷ wipe n b

-- `for i := from; i < n; i++ { b[i] = 0 }`
unfoldable pub wipe_from : ℕ → ℕ → Bytes → Bytes
unfolding wipe
wipe_from zero n b = wipe n b
wipe_from (suc i) zero b = b
wipe_from (suc i) (suc n) [] = []
wipe_from (suc i) (suc n) (c ∷ b) = c ∷ wipe_from i n b

-- The array is overwritten twice, and the slice becomes nil.
unfoldable pub zero_data : SafeString → SafeString
unfolding wipe
zero_data s = elim s.len [
  | none ↦ s
  | some n ↦ record { buffer = wipe n (wipe n s.buffer); len = none; stale = s.stale }
]

-- `append(data, b...)`: in place where the array has room, in a new array otherwise, which the
-- runtime may make larger than needed by `spare` bytes, all zero.
extend : ℕ → SafeString → ℕ → Bytes → SafeString
extend spare s n b =
    if leb (n + length b) (length s.buffer)
    then record {
      buffer = take n s.buffer ++ b ++ drop (n + length b) s.buffer;
      len = some (n + length b);
      stale = s.stale;
    }
    else record {
      buffer = take n s.buffer ++ b ++ replicate spare 0;
      len = some (n + length b);
      stale = s.buffer ∷ s.stale;
    }

-- A nil slice is first replaced by an empty one with room for `b`.
unfoldable pub append : ℕ → SafeString → Bytes → SafeString
unfolding extend
append spare s b = elim s.len [
  | none ↦
      extend spare
        (record { buffer = replicate (length b) 0; len = some 0; stale = s.buffer ∷ s.stale }) 0 b
  | some n ↦ extend spare s n b
]

unfoldable pub append_string : ℕ → SafeString → Bytes → SafeString
unfolding append
append_string spare s t = append spare s t

-- A negative length is taken as 0.
clip : ℤ → ℕ
clip (pos n) = n
clip (negsuc n) = 0

shorten : SafeString → ℕ → ℕ → SafeString
unfolding wipe_from
shorten s k n =
    if leb n k then s else record { buffer = wipe_from k n s.buffer; len = some k; stale = s.stale }

unfoldable pub truncate : SafeString → ℤ → SafeString
unfolding clip shorten
truncate s k = elim s.len [ none ↦ s | some n ↦ shorten s (clip k) n ]
