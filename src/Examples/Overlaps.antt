-- ===== src/Examples/Overlaps.antt =====
-- The theorems on overlapping reads (internal/server/server.go) at two reads of one reference.
use opx.Prelude.{ℕ, ◌≡◌, refl, List, [], arith}
use opx.Prelude.Int.{pos}
use opx.Prelude.Bytes.{Bytes, codes}
use opx.Dict.{lookup}
use opx.Cache.{peek, inc_miss, inc_in_flight}
use opx.Protocol.{ReadResponse}
use opx.Backend.{Result, ok}
use opx.Server.{fresh_response}
use opx.Server.Overlap.{
  Asked, System, Reach, begun, later, moves, shares, absent, miss, enter, flies, absent_again,
  reads, stores, leaves,
}
use opx.Server.Overlap.InFlight.{count, overlap-counted}

abbrev asked : ℕ → Asked
asked i = record { ref = codes "op://V/I/f"; flags = [] }

abbrev echo : Bytes → List Bytes → Result Bytes
echo ref flags = ok ref

-- Both look for the reference, and find nothing; the first asks the backend, and the second gets
-- the answer of the first.
record Run : Type 0 where
  last : System
  reach : Reach echo asked 2 (pos 100) last

missed : Run
unfolding peek lookup
missed = record {
  last = _;
  reach =
      later (later begun (moves 0 (omega arith) (absent (pos 1) refl)))
        (moves 1 (omega arith) (absent (pos 1) refl));
}

-- Both are counted, and the first has the value.
flown : Run
unfolding missed peek lookup inc_miss inc_in_flight
flown = record {
  last = _;
  reach =
      later
        (later
          (later
            (later
              (later
                (later
                  (later (later missed.reach (moves 0 (omega arith) miss))
                    (moves 1 (omega arith) miss))
                  (moves 0 (omega arith) enter))
                (moves 1 (omega arith) enter))
              (moves 0 (omega arith) flies))
            (moves 0 (omega arith) (absent_again (pos 2) refl)))
          (moves 0 (omega arith) (reads refl)))
        (moves 0 (omega arith) (stores (pos 3) (pos 3) (pos 4)));
}

shared : Run
unfolding flown missed inc_miss inc_in_flight
shared = record {
  last = _;
  reach =
      later (later flown.reach (shares 1 0 (omega arith) refl refl refl))
        (moves 1 (omega arith) leaves);
}

abbrev response : Result ReadResponse
response = ok (fresh_response (codes "op://V/I/f") (codes "op://V/I/f") (pos 100) (pos 4))

overlap-counted_example : flown.last.cache.inflight ≡ pos (count 2 flown.last.pc)
overlap-counted_example =
    overlap-counted echo asked 2 (omega arith) (pos 100) flown.last flown.reach
