-- ===== src/Cache.antt =====
-- internal/cache/cache.go: the TTL cache of secrets.
--
-- The map's entries point to SafeStrings, so the model keeps the store of the SafeStrings that the
-- cache has made (`heap`, by address) beside the map. Each method that takes the lock is one step;
-- `Get` gives the lock back before it reads the text, and is therefore `peek`, then `read`. What
-- the code asks the clock for is an argument, in nanoseconds.
pub mod Ownership
pub mod Refinement
pub mod Counters
pub mod Wearing
use opx.Prelude.{
  ℕ, ◌+◌, Bool, true, Option, none, some, List, [], ◌∷◌, ◌++◌, length, get_elem?, set,
  if◌then◌else◌,
}
use opx.Prelude.Int.{ℤ, pos, ◌+ℤ◌, ◌-ℤ◌, ltb_ℤ, wrap64}
use opx.Prelude.Bytes.{Bytes}
use opx.Dict.{Dict, lookup, insert, delete, keys}
use opx.SafeString.{SafeString, new_string, to_string, zero_data, wipe}

pub record Entry : Type 0 where
  pub v : ℕ
  pub exp : ℤ
  pub cached : ℤ

pub record Cache : Type 0 where
  pub heap : List SafeString
  pub entries : Dict Entry
  pub ttl : ℤ
  pub hits : ℤ
  pub misses : ℤ
  pub inflight : ℤ

abbrev pub new_cache : ℤ → Cache
new_cache ttl = record {
  heap = [];
  entries = [];
  ttl = ttl;
  hits = pos 0;
  misses = pos 0;
  inflight = pos 0;
}

-- What `Get` returns with `true`: the value, `exp` and `cached`.
abbrev pub Found : Type 0
Found = Bytes × ℤ × ℤ

-- `now.After(e.exp)`
unfoldable pub expired : ℤ → Entry → Bool
expired now e = ltb_ℤ e.exp now

unexpired : ℤ → Option Entry → Option Entry
unfolding expired
unexpired now none = none
unexpired now (some e) = if expired now e then none else some e

-- The first part of `Get`: the entry, under the lock, and the test of its expiry.
unfoldable pub peek : Cache → Bytes → ℤ → Option Entry
unfolding unexpired
peek c key now = unexpired now (lookup key c.entries)

-- The second part: the text is read when the lock is given back.
unfoldable pub read : Cache → Entry → Found
read c e = (to_string (get_elem? c.heap e.v), e.exp, e.cached)

found : Cache → Option Entry → Option Found
unfolding read
found c none = none
found c (some e) = some (read c e)

-- The whole of `Get`, where no other method runs in between.
unfoldable pub get : Cache → Bytes → ℤ → Option Found
unfolding peek found
get c key now = found c (peek c key now)

-- `e.v.Zero()`
zero_cell : List SafeString → ℕ → Option SafeString → List SafeString
zero_cell heap a none = heap
zero_cell heap a (some s) = set heap a (zero_data s)

unfoldable pub zero_at : List SafeString → ℕ → List SafeString
unfolding zero_cell
zero_at heap a = zero_cell heap a (get_elem? heap a)

zero_existing : List SafeString → Option Entry → List SafeString
unfolding zero_at
zero_existing heap none = heap
zero_existing heap (some e) = zero_at heap e.v

-- `Set` asks the clock twice.
unfoldable pub set_value : Cache → Bytes → Bytes → ℤ → ℤ → Cache
unfolding zero_existing
set_value c key val now now' =
    let heap' = zero_existing c.heap (lookup key c.entries) in
    record c {
      heap = heap' ++ new_string val ∷ [];
      entries =
          insert key (record { v = length heap'; exp = now +ℤ c.ttl; cached = now' }) c.entries;
    }

unfoldable pub stats : Cache → ℕ × ℤ × ℤ × ℤ
stats c = (length c.entries, c.hits, c.misses, c.inflight)

unfoldable pub inc_hit : Cache → Cache
inc_hit c = record c { hits = wrap64 (c.hits +ℤ pos 1) }

unfoldable pub inc_miss : Cache → Cache
inc_miss c = record c { misses = wrap64 (c.misses +ℤ pos 1) }

unfoldable pub inc_in_flight : Cache → Cache
inc_in_flight c = record c { inflight = wrap64 (c.inflight +ℤ pos 1) }

unfoldable pub dec_in_flight : Cache → Cache
dec_in_flight c =
    if ltb_ℤ (pos 0) c.inflight then record c { inflight = wrap64 (c.inflight -ℤ pos 1) } else c

-- A nil pointer is `none`; the bytes of the string are overwritten in place.
unfoldable pub zeroize_string : Option Bytes → Option Bytes
zeroize_string none = none
zeroize_string (some s) = some (wipe (length s) s)

-- `entry.v.Zero(); delete(c.data, key)`
unfoldable pub evict : Cache → Bytes → Entry → Cache
unfolding zero_at
evict c key e = record c { heap = zero_at c.heap e.v; entries = delete key c.entries }

-- One round of a `range` over the map: a key that is gone is not produced.
unfoldable pub evict_if : (Entry → Bool) → Bytes → Option Entry → Cache × ℕ → Cache × ℕ
unfolding evict
evict_if test key none (c, removed) = (c, removed)
evict_if test key (some e) (c, removed) =
    if test e then (evict c key e, removed + 1) else (c, removed)

unfoldable pub evict_where : (Entry → Bool) → List Bytes → Cache × ℕ → Cache × ℕ
unfolding evict_if
evict_where test [] r = r
evict_where test (key ∷ rest) r =
    evict_where test rest (evict_if test key (lookup key r.0.entries) r)

unfoldable pub cleanup_expired : Cache → ℤ → Cache × ℕ
unfolding evict_where expired
cleanup_expired c now = evict_where (expired now) (keys c.entries) (c, 0)

unfoldable pub clear : Cache → Cache × ℕ
unfolding evict_where
clear c = ((evict_where (λ e. true) (keys c.entries) (c, 0)).0, length c.entries)
