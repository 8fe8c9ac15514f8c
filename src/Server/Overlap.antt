-- ===== src/Server/Overlap.antt =====
-- Reads that overlap: `readOneWithFlags` of internal/server/server.go from its look into the cache on,
-- one call of the cache or of the backend at a time, for any number of reads at once, with the clean-up
-- and the clearing of the cache in between. `Get` of the cache is two steps: it gives its lock back before it
-- reads the text.
--
-- Of `golang.org/x/sync/singleflight` this is relied on, which its documentation says of `Do`: it runs
-- its function, or gives the result that another `Do` with the same key has got from its own. Which of
-- the two a read does is left open, and so is the order of the steps.
pub mod InFlight
pub mod Right
use opx.Prelude.{ℕ, ◌<◌, ◌≡◌, Option, none, some, List, if◌then◌else◌, ◌==◌, Bool, true, false}
use opx.Prelude.Int.{ℤ, pos}
use opx.Prelude.Bytes.{Bytes}
use opx.Cache.{
  Cache, Entry, Found, new_cache, peek, read, set_value, inc_hit, inc_miss, inc_in_flight,
  dec_in_flight, cleanup_expired, clear,
}
use opx.Protocol.{ReadResponse}
use opx.Backend.{Error, Result, ok, err}
use opx.Server.{cache_key, from_cache_response, fresh_response}

-- Before which call a read stands, with what it has got so far.
pub data Pc : Type 0 where
  looking : Pc  -- `s.Cache.Get`, up to its lock
  reading : Entry → Pc  -- `e.v.String()`, in `Get`
  hitting : Found → Pc  -- `s.Cache.IncHit`
  missing : Pc  -- `s.Cache.IncMiss`
  entering : Pc  -- `s.Cache.IncInFlight`
  doing : Pc  -- `s.sf.Do`
  looking_again : Pc  -- the same, in the function of `Do`
  reading_again : Entry → Pc
  hitting_again : Found → Pc
  calling : Pc  -- `s.Backend.ReadRefWithFlags`
  storing : Bytes → Pc  -- `s.Cache.Set`
  leaving : Result ReadResponse → Pc  -- `s.Cache.DecInFlight`
  answered : Result ReadResponse → Pc

-- What a read asks for.
pub record Asked : Type 0 where
  pub ref : Bytes
  pub flags : List Bytes

abbrev pub key : Asked → Bytes
key q = cache_key q.ref q.flags

-- A step of one read: over a backend that reads the function `f`, and at any times.
pub data Move (f : Bytes → List Bytes → Result Bytes) (q : Asked) (c : Cache)
    : Pc → Cache → Pc → Type 0 where
  found : (now : ℤ) {e : Entry} → peek c (key q) now ≡ some e → Move f q c looking c (reading e)
  absent : (now : ℤ) → peek c (key q) now ≡ none → Move f q c looking c missing
  got_text : {e : Entry} → Move f q c (reading e) c (hitting (read c e))
  hit :
      (now : ℤ) {r : Found}
      → Move f q c (hitting r) (inc_hit c) (answered (ok (from_cache_response q.ref now r)))
  miss : Move f q c missing (inc_miss c) entering
  enter : Move f q c entering (inc_in_flight c) doing
  flies : Move f q c doing c looking_again
  found_again :
      (now : ℤ) {e : Entry}
      → peek c (key q) now ≡ some e
      → Move f q c looking_again c (reading_again e)
  absent_again : (now : ℤ) → peek c (key q) now ≡ none → Move f q c looking_again c calling
  got_text_again : {e : Entry} → Move f q c (reading_again e) c (hitting_again (read c e))
  hit_again :
      (now : ℤ) {r : Found}
      → Move f q c (hitting_again r) (inc_hit c) (leaving (ok (from_cache_response q.ref now r)))
  reads : {v : Bytes} → f q.ref q.flags ≡ ok v → Move f q c calling c (storing v)
  fails : {e : Error} → f q.ref q.flags ≡ err e → Move f q c calling c (leaving (err e))
  stores :
      (now now' resolved : ℤ) {v : Bytes}
      → Move f q c
          (storing v)
          (set_value c (key q) v now now')
          (leaving (ok (fresh_response q.ref v c.ttl resolved)))
  leaves : {r : Result ReadResponse} → Move f q c (leaving r) (dec_in_flight c) (answered r)

-- The reads, by number, over one cache.
pub record System : Type 0 where
  pub cache : Cache
  pub pc : ℕ → Pc

abbrev pub update : (ℕ → Pc) → ℕ → Pc → ℕ → Pc
update pcs i p j = if i == j then p else pcs j

-- A step of the system of `n` reads.
pub data Step (f : Bytes → List Bytes → Result Bytes) (asked : ℕ → Asked) (n : ℕ) (s : System)
    : System → Type 0 where
  moves :
      (i : ℕ) {c : Cache} {p : Pc}
      → i < n
      → Move f (asked i) s.cache (s.pc i) c p
      → Step f asked n s (record { cache = c; pc = update s.pc i p })
  shares :
      (i j : ℕ) {r : Result ReadResponse}
      → i < n
      → s.pc i ≡ doing
      → s.pc j ≡ leaving r
      → key (asked i) ≡ key (asked j)
      → Step f asked n s (record { cache = s.cache; pc = update s.pc i (leaving r) })
  cleans :
      (now : ℤ) → Step f asked n s (record { cache = (cleanup_expired s.cache now).0; pc = s.pc })
  clears : Step f asked n s (record { cache = (clear s.cache).0; pc = s.pc })

pub data Reach (f : Bytes → List Bytes → Result Bytes) (asked : ℕ → Asked) (n : ℕ) (ttl : ℤ)
    : System → Type 0 where
  begun : Reach f asked n ttl (record { cache = new_cache ttl; pc = λ i. looking })
  later : {s t : System} → Reach f asked n ttl s → Step f asked n s t → Reach f asked n ttl t
