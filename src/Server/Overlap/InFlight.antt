-- ===== src/Server/Overlap/InFlight.antt =====
-- The counter of the reads in flight, over reads that overlap.
use opx.Prelude.{
  ℕ, zero, suc, ◌+◌, ◌-◌, ◌≤◌, ◌<◌, ◌^◌, ◌≡◌, refl, sym, ap, ◌∙◌, Option, none, some, List, [], ◌∷◌,
  arith, Bool, Bool-cases, inl, inr, ==_iff, true, false, ◌==◌, if◌then◌else◌,
}
use opx.Prelude.Int.{ℤ, pos, wrap64, ◌+ℤ◌, ◌-ℤ◌, ltb_ℤ}
use opx.Prelude.Bytes.{Bytes}
use opx.Dict.{lookup, keys}
use opx.Cache.{
  Cache, Entry, evict_if, evict, evict_where, cleanup_expired, clear, set_value, inc_hit, inc_miss,
  inc_in_flight, dec_in_flight,
}
use opx.Backend.{Result}
use opx.Server.Overlap.{
  Pc, looking, reading, hitting, missing, entering, doing, leaving, answered, Asked, Move, found,
  absent, got_text, got_text_again, hit, miss, enter, flies, found_again, absent_again, hit_again,
  reads, fails, stores, leaves, System, update, Step, moves, shares, cleans, clears, Reach, begun,
  later,
}

-- Whether a read is between `IncInFlight` and `DecInFlight`.
abbrev pub in_flight : Pc → ℕ
in_flight looking = 0
in_flight (reading e) = 0
in_flight (hitting r) = 0
in_flight missing = 0
in_flight entering = 0
in_flight (answered r) = 0
in_flight _ = 1

-- How many of the first `n` reads are.
pub count : ℕ → (ℕ → Pc) → ℕ
count zero pcs = 0
count (suc n) pcs = count n pcs + in_flight (pcs n)

count-update_of_le :
    (n : ℕ) (pcs : ℕ → Pc) (i : ℕ) (p : Pc) → n ≤ i → count n (update pcs i p) ≡ count n pcs
unfolding count
count-update_of_le zero pcs i p h = refl
count-update_of_le (suc n) pcs i p h =
    let other : (i == n) ≡ false = ground arith in
    rw (other, count-update_of_le n pcs i p (omega arith)) refl

count-update :
    (n : ℕ) (pcs : ℕ → Pc) (i : ℕ) (p : Pc)
    → i < n
    → count n (update pcs i p) + in_flight (pcs i) ≡ count n pcs + in_flight p
unfolding count
count-update zero pcs i p h = absurd (omega arith)
count-update (suc n) pcs i p h = elim (Bool-cases (i == n)) [
  | inl last ↦
      let same : i ≡ n = (==_iff i n).0 last in
      let rest = count-update_of_le n pcs i p (omega arith) in
      rw last (omega (arith, rest, ap (λ k. in_flight (pcs k)) same))
  | inr below ↦ rw below (omega (arith, count-update n pcs i p (ground arith)))
]

in_flight-le : (p : Pc) → in_flight p ≤ 1
in_flight-le p = ground arith

count-le : (n : ℕ) (pcs : ℕ → Pc) → count n pcs ≤ n
unfolding count
count-le zero pcs = omega arith
count-le (suc n) pcs = omega (arith, count-le n pcs, in_flight-le (pcs n))

evict_if-inflight :
    (test : Entry → Bool) (k : Bytes) (o : Option Entry) (r : Cache × ℕ)
    → (evict_if test k o r).0.inflight ≡ r.0.inflight
unfolding evict_if evict
evict_if-inflight test k none r = refl
evict_if-inflight test k (some e) r = elim (Bool-cases (test e)) [
  | inl t ↦ rw t refl
  | inr t ↦ rw t refl
]

evict_where-inflight :
    (test : Entry → Bool) (ks : List Bytes) (r : Cache × ℕ)
    → (evict_where test ks r).0.inflight ≡ r.0.inflight
unfolding evict_where
evict_where-inflight test [] r = refl
evict_where-inflight test (k ∷ ks) r =
    evict_where-inflight test ks (evict_if test k (lookup k r.0.entries) r)
    ∙ evict_if-inflight test k (lookup k r.0.entries) r

one_more : (x : ℕ) → x + 1 < 2 ^ 63 → wrap64 (pos (x + 0) +ℤ pos 1) ≡ pos (x + 1)
unfolding wrap64 ◌+ℤ◌
one_more x h = ground arith

one_less :
    (x : ℕ)
    → x + 1 < 2 ^ 63
    → (if ltb_ℤ (pos 0) (pos (x + 1)) then wrap64 (pos (x + 1) -ℤ pos 1) else pos (x + 1))
      ≡ pos (x + 0)
unfolding wrap64 ◌-ℤ◌
one_less x h = ground arith

dec-inflight :
    (c : Cache)
    → (dec_in_flight c).inflight
      ≡ (if ltb_ℤ (pos 0) c.inflight then wrap64 (c.inflight -ℤ pos 1) else c.inflight)
unfolding dec_in_flight
dec-inflight c = elim (Bool-cases (ltb_ℤ (pos 0) c.inflight)) [
  | inl some_left ↦ rw some_left refl
  | inr none_left ↦ rw none_left refl
]

-- The effect of a move on the counter.
move-inflight :
    (f : Bytes → List Bytes → Result Bytes) (q : Asked) (c c' : Cache) (p p' : Pc) (x : ℕ)
    → Move f q c p c' p'
    → c.inflight ≡ pos (x + in_flight p)
    → x + 1 < 2 ^ 63
    → c'.inflight ≡ pos (x + in_flight p')
unfolding inc_hit inc_miss inc_in_flight set_value
move-inflight f q c c' p p' x (found now e) h b = h
move-inflight f q c c' p p' x (absent now e) h b = h
move-inflight f q c c' p p' x got_text h b = h
move-inflight f q c c' p p' x got_text_again h b = h
move-inflight f q c c' p p' x (hit now) h b = h
move-inflight f q c c' p p' x miss h b = h
move-inflight f q c c' p p' x enter h b = ap (λ z. wrap64 (z +ℤ pos 1)) h ∙ one_more x b
move-inflight f q c c' p p' x flies h b = h
move-inflight f q c c' p p' x (found_again now e) h b = h
move-inflight f q c c' p p' x (absent_again now e) h b = h
move-inflight f q c c' p p' x (hit_again now) h b = h
move-inflight f q c c' p p' x (reads e) h b = h
move-inflight f q c c' p p' x (fails e) h b = h
move-inflight f q c c' p p' x (stores now now' resolved) h b = h
move-inflight f q c c' p p' x leaves h b =
    dec-inflight c ∙ ap (λ z. if ltb_ℤ (pos 0) z then wrap64 (z -ℤ pos 1) else z) h ∙ one_less x b

none_yet : (n : ℕ) → count n (λ i. looking) ≡ 0
unfolding count
none_yet zero = refl
none_yet (suc n) = omega (arith, none_yet n)

module _ (f : Bytes → List Bytes → Result Bytes) (asked : ℕ → Asked) (n : ℕ)
    (few : n < 2 ^ 63) where
  abbrev IsCounted : System → Type 0
  IsCounted s = s.cache.inflight ≡ pos (count n s.pc)

  Step-IsCounted : (s t : System) → Step f asked n s t → IsCounted s → IsCounted t
  unfolding cleanup_expired clear
  Step-IsCounted s t (moves i {c} {p} lt mv) h =
      let balance = count-update n s.pc i p lt in
      let without = count-update n s.pc i looking lt in
      let within = count-update n s.pc i doing lt in
      let bound = count-le n (update s.pc i doing) in
      let x = count n s.pc - in_flight (s.pc i) in
      move-inflight f (asked i) s.cache c (s.pc i) p x mv (h ∙ ap pos (omega (arith, without)))
        (omega (arith, within, bound, without, few))
      ∙ ap pos (omega (arith, balance, without))
  Step-IsCounted s t (shares i j {r} lt here there same) h =
      let balance = count-update n s.pc i (leaving r) lt in
      let mine : in_flight (s.pc i) ≡ 1 = ap in_flight here in
      h ∙ ap pos (omega (arith, balance, mine))
  Step-IsCounted s t (cleans now) h = evict_where-inflight _ (keys s.cache.entries) (s.cache, 0) ∙ h
  Step-IsCounted s t clears h =
      evict_where-inflight (λ e. true) (keys s.cache.entries) (s.cache, 0) ∙ h

  -- Of fewer than 2^63 reads that overlap in any way, with clean-ups and clearings of the cache in between, from a new
  -- cache on, the counter of the reads in flight says at every moment how many are between the two calls that count
  -- them, so that no read is counted twice or missed, and the counter is 0 again when they are over.
  pub overlap-counted :
      (ttl : ℤ) (s : System) → Reach f asked n ttl s → s.cache.inflight ≡ pos (count n s.pc)
  overlap-counted ttl s begun = ap pos (sym (none_yet n))
  overlap-counted ttl s (later {s = s0} r st) = Step-IsCounted s0 s st (overlap-counted ttl s0 r)
