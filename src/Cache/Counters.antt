-- ===== src/Cache/Counters.antt =====
-- The counters of the cache.
use opx.Prelude.{ℕ, ◌+◌, ◌<◌, ◌-◌, ◌^◌, ◌≡◌, ◌∙◌, sym, arith, true}
use opx.Prelude.Int.{ℤ, pos, ◌+ℤ◌, ◌-ℤ◌, ltb_ℤ, wrap64, IsInt64, ◌≤ℤ◌}
use opx.Cache.{Cache, inc_in_flight, dec_in_flight}

succ-IsInt64 : (n : ℕ) → n < 2 ^ 63 - 1 → wrap64 (pos n +ℤ pos 1) ≡ pos (n + 1)
unfolding ◌+ℤ◌ wrap64
succ-IsInt64 n h = ground arith

pred-IsInt64 : (n : ℕ) → n < 2 ^ 63 - 1 → wrap64 (pos (n + 1) -ℤ pos 1) ≡ pos n
unfolding ◌-ℤ◌ wrap64
pred-IsInt64 n h = ground arith

leave_positive :
    (c : Cache) (n : ℕ)
    → c.inflight ≡ pos (n + 1)
    → n < 2 ^ 63 - 1
    → dec_in_flight c ≡ record c { inflight = pos n }
unfolding dec_in_flight
leave_positive c n e h =
    rw (positive c.inflight e) (λ i. record c { inflight = less c.inflight e i })
  where
    positive : (z : ℤ) → z ≡ pos (n + 1) → ltb_ℤ (pos 0) z ≡ true
    positive z q = rw q (ground arith)

    less : (z : ℤ) → z ≡ pos (n + 1) → wrap64 (z -ℤ pos 1) ≡ pos n
    less z q = rw q (pred-IsInt64 n h)

-- Leaving after entering gives back the cache as it was, short of the largest int.
pub dec-inc :
    (c : Cache) (n : ℕ) → c.inflight ≡ pos n → n < 2 ^ 63 - 1 → dec_in_flight (inc_in_flight c) ≡ c
unfolding inc_in_flight
dec-inc c n e h =
    leave_positive (record c { inflight = wrap64 (c.inflight +ℤ pos 1) }) n (more c.inflight e) h
    ∙ (λ i. record c { inflight = sym e i })
  where
    more : (z : ℤ) → z ≡ pos n → wrap64 (z +ℤ pos 1) ≡ pos (n + 1)
    more z q = rw q (succ-IsInt64 n h)

-- The number of reads in flight never falls below 0.
pub dec_nonneg :
    (c : Cache) → IsInt64 c.inflight → pos 0 ≤ℤ c.inflight → pos 0 ≤ℤ (dec_in_flight c).inflight
unfolding dec_in_flight wrap64 ◌-ℤ◌
dec_nonneg c b h = ground arith
