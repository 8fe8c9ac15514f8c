-- ===== src/SafeString/Pool.antt =====
-- internal/safestring/safestring.go: `Pool`, a buffered channel of objects for reuse.
use opx.Prelude.{
  ℕ, ◌≤◌, refl, Option, none, some, List, [], ◌∷◌, ◌++◌, arith, length, length-append, All,
  All-append, ltb, Bool-cases, inl, inr, if◌then◌else◌,
}
use opx.SafeString.{SafeString, zero_data}
use opx.SafeString.Zeroing.{IsClean, IsWiped, zero_data-IsWiped}

-- The channel's contents, oldest first.
pub record Pool : Type 0 where
  pub pool : List SafeString
  pub capacity : ℕ

abbrev pub new_pool : ℕ → Pool
new_pool capacity = record { pool = []; capacity = capacity }

-- `&SafeString{}`
abbrev pub blank : SafeString
blank = record { buffer = []; len = none; stale = [] }

take_from : ℕ → List SafeString → SafeString × Pool
take_from capacity [] = (blank, record { pool = []; capacity = capacity })
take_from capacity (s ∷ rest) = (s, record { pool = rest; capacity = capacity })

pub get : Pool → SafeString × Pool
unfolding take_from
get p = take_from p.capacity p.pool

offer : Pool → SafeString → Pool
offer p s = if ltb (length p.pool) p.capacity then record p { pool = p.pool ++ s ∷ [] } else p

pub put : Pool → Option SafeString → Pool
unfolding offer
put p none = p
put p (some s) = offer p (zero_data s)

-- Every pooled object is wiped, and the channel holds no more than its capacity.
pub record IsSafe (p : Pool) : Type 0 where
  pub wiped : All IsWiped p.pool
  pub bounded : length p.pool ≤ p.capacity

abbrev OptionClean : Option SafeString → Type 0
OptionClean none = Unit {0}
OptionClean (some s) = IsClean s

-- What the users of a pool do: take an object, or give one back.
pub data Call : Type 0 where
  gets : Call
  puts : Option SafeString → Call

abbrev pub step : Pool → Call → Pool
step p gets = (get p).1
step p (puts s) = put p s

abbrev pub run : Pool → List Call → Pool
run p [] = p
run p (c ∷ cs) = run (step p c) cs

abbrev pub CleanCall : Call → Type 0
CleanCall gets = Unit {0}
CleanCall (puts s) = OptionClean s

take_from-IsSafe :
    (capacity : ℕ) (xs : List SafeString)
    → All IsWiped xs
    → length xs ≤ capacity
    → IsWiped (take_from capacity xs).0 × IsSafe (take_from capacity xs).1
unfolding take_from
take_from-IsSafe capacity [] w b = ((refl, tt), record { wiped = tt; bounded = b })
take_from-IsSafe capacity (s ∷ rest) w b = (w.0, record { wiped = w.1; bounded = omega arith })

get-IsSafe : (p : Pool) → IsSafe p → IsWiped (get p).0 × IsSafe (get p).1
unfolding get
get-IsSafe p h = take_from-IsSafe p.capacity p.pool h.wiped h.bounded

put-IsSafe : (p : Pool) (s : Option SafeString) → OptionClean s → IsSafe p → IsSafe (put p s)
unfolding put
put-IsSafe p none c h = h
put-IsSafe p (some s) c h = elim (Bool-cases (ltb (length p.pool) p.capacity)) [
  | inl t ↦
      rw (t, offer)
        (record {
          wiped = All-append IsWiped p.pool (zero_data s ∷ []) h.wiped (zero_data-IsWiped s c, tt);
          bounded = ground (arith, length-append p.pool (zero_data s ∷ []));
        })
  | inr t ↦ rw (t, offer) h
]

run-IsSafe : (p : Pool) (cs : List Call) → All CleanCall cs → IsSafe p → IsSafe (run p cs)
run-IsSafe p [] c h = h
run-IsSafe p (gets ∷ cs) c h = run-IsSafe (get p).1 cs c.1 (get-IsSafe p h).1
run-IsSafe p (puts s ∷ cs) c h = run-IsSafe (put p s) cs c.1 (put-IsSafe p s c.0 h)

-- After any calls on a new pool, of which each gives back an object whose array is zero beyond its
-- slice, the object that `Get` hands out is wiped.
pub get-run-IsWiped :
    (capacity : ℕ) (cs : List Call)
    → All CleanCall cs
    → IsWiped (get (run (new_pool capacity) cs)).0
get-run-IsWiped capacity cs c =
    (get-IsSafe _
      (run-IsSafe (new_pool capacity) cs c (record { wiped = tt; bounded = omega arith }))).0
