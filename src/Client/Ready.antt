-- ===== src/Client/Ready.antt =====
-- That the client gets to an end when it makes the daemon ready.
use opx.Prelude.{
  ℕ, zero, suc, ◌+◌, ◌*◌, ◌≤◌, ◌<◌, ◌≡◌, Bool, true, false, Option, none, some, refl, arith, ltb,
  Bool-cases, inl, inr,
}
use opx.Prelude.Bytes.{Bytes, codes, ◌=ᵇ◌}
use opx.Client.{
  Client, ClientError, Net, ping, pause, patience, wait_round, wait_ready, most_rounds, after_start,
  launch, daemon_program, after_ping, ensure_daemon,
}

-- What the client needs of the clock: no exchange turns it back, and a pause lasts at least as long
-- as it is asked for.
pub record IsClock {N : Type 0} (net : Net N) : Type 0 where
  pub onward : (r : _) (n : N) → net.now n ≤ net.now (net.exchange r n).1
  pub passes : (t : ℕ) (n : N) → net.now n + t ≤ net.now (net.sleep t n)

module _ {N : Type 0} (net : Net N) (clock : IsClock net) where
  -- The loop has ended.
  abbrev IsOver : Option (Option ClientError) × N → Type 0
  IsOver (none, n) = ⊥
  IsOver (some r, n) = Unit {0}

  ping-onward : (c : Client) (n : N) → net.now n ≤ net.now (ping net c n).1
  unfolding ping
  ping-onward c n = clock.onward _ n

  round-later :
      (c : Client) (n : N) → net.now n + pause ≤ net.now (net.sleep pause (ping net c n).1)
  round-later c n = ground (arith, ping-onward c n, clock.passes pause (ping net c n).1)

  round-IsOver :
      (fuel : ℕ) (c : Client) (deadline : ℕ) (n : N) (r : Option ClientError × N)
      → net.now n + pause ≤ net.now (net.sleep pause r.1)
      → deadline ≤ net.now n + (fuel + 1) * pause
      → ((n' : N)
          → deadline ≤ net.now n' + fuel * pause
          → IsOver (wait_ready net (suc fuel) c deadline n'))
      → IsOver (wait_round net (wait_ready net (suc fuel) c deadline) r)
  unfolding wait_round
  round-IsOver fuel c deadline n (none, n') l h rest = tt
  round-IsOver fuel c deadline n (some e, n') l h rest = rest (net.sleep pause n') (omega arith)

  wait-IsOver :
      (fuel : ℕ) (c : Client) (deadline : ℕ) (n : N)
      → deadline ≤ net.now n + fuel * pause
      → IsOver (wait_ready net (suc fuel) c deadline n)
  unfolding wait_ready
  wait-IsOver zero c deadline n h = elim (Bool-cases (ltb (net.now n) deadline)) [
    | inl early ↦ absurd (ground arith)
    | inr late ↦ rw late tt
  ]
  wait-IsOver (suc fuel) c deadline n h =
      let rest = wait-IsOver fuel c deadline in
      elim (Bool-cases (ltb (net.now n) deadline)) [
        | inl early ↦
            rw early
              (round-IsOver fuel c deadline n (ping net c n) (round-later c n) (omega arith) rest)
        | inr late ↦ rw late tt
      ]

  after_start-IsOver : (c : Client) (r : Bool × N) → IsOver (after_start net c r)
  unfolding after_start
  after_start-IsOver c (false, n) = tt
  after_start-IsOver c (true, n) = wait-IsOver 20 c (net.now n + patience) n (omega arith)

  launch-IsOver : (c : Client) (o : Option Bytes) (n : N) → IsOver (launch net c o n)
  unfolding launch
  launch-IsOver c none n = tt
  launch-IsOver c (some exe) n = after_start-IsOver c (net.start exe n)

  after_ping-IsOver : (c : Client) (r : Option ClientError × N) → IsOver (after_ping net c r)
  unfolding after_ping
  after_ping-IsOver c (none, n) = tt
  after_ping-IsOver c (some e, n) =
      elim (Bool-cases (net.getenv (codes "OPX_AUTOSTART") =ᵇ codes "0")) [
        | inl off ↦ rw off tt
        | inr on ↦ rw on (launch-IsOver c (daemon_program net) n)
      ]

  ended :
      (r : Option (Option ClientError) × N) → IsOver r → (a : Option ClientError) × (r.0 ≡ some a)
  ended (none, n) h = absurd h
  ended (some a, n) h = (a, refl)

  -- Where no exchange turns the clock back, and a pause is as long as it is asked for, `ensureDaemon` comes to its
  -- end, ready or with an error, after at most twenty-one looks at the clock, whatever the daemon does.
  pub ensure_daemon_total :
      (c : Client) (n : N) → (a : Option ClientError) × ((ensure_daemon net c n).0 ≡ some a)
  unfolding ensure_daemon
  ensure_daemon_total c n = ended (ensure_daemon net c n) (after_ping-IsOver c (ping net c n))

  -- So many rounds of the loop.
  unfoldable pub rounds : Client → ℕ → N → N
  rounds c zero n = n
  rounds c (suc k) n = rounds c k (net.sleep pause (ping net c n).1)

  rounds-now : (c : Client) (k : ℕ) (n : N) → net.now n + k * pause ≤ net.now (rounds c k n)
  unfolding rounds
  rounds-now c zero n = omega arith
  rounds-now c (suc k) n =
      ground (arith, rounds-now c k (net.sleep pause (ping net c n).1), round-later c n)

  round-answered :
      (rest : N → Option (Option ClientError) × N) (r : Option ClientError × N)
      → (rest (net.sleep pause r.1)).0 ≡ some none
      → (wait_round net rest r).0 ≡ some none
  unfolding wait_round
  round-answered rest (none, n) h = refl
  round-answered rest (some e, n) h = h

  first-answered :
      (rest : N → Option (Option ClientError) × N) (r : Option ClientError × N)
      → r.0 ≡ none
      → (wait_round net rest r).0 ≡ some none
  unfolding wait_round
  first-answered rest (none, n) h = refl
  first-answered rest (some e, n) h = absurd (ground arith)

  wait-answered :
      (c : Client) (deadline fuel k : ℕ) (n : N)
      → k < fuel
      → net.now (rounds c k n) < deadline
      → (ping net c (rounds c k n)).0 ≡ none
      → (wait_ready net fuel c deadline n).0 ≡ some none
  unfolding wait_ready rounds
  wait-answered c deadline zero k n b h p = absurd (omega arith)
  wait-answered c deadline (suc fuel) zero n b h p =
      let early : ltb (net.now n) deadline ≡ true = ground arith in
      rw early (first-answered (wait_ready net fuel c deadline) (ping net c n) p)
  wait-answered c deadline (suc fuel) (suc k) n b h p =
      let early : ltb (net.now n) deadline ≡ true = ground (arith, rounds-now c (suc k) n) in
      rw early (
        round-answered (wait_ready net fuel c deadline) (ping net c n)
          (wait-answered c deadline fuel k (net.sleep pause (ping net c n).1) (omega arith) h p))

  -- Where no exchange turns the clock back, and a pause is as long as it is asked for: after a first ping that fails, and where the autostart is not disabled and the daemon's program starts, one ping
  -- of the loop that is answered makes the client ready: the one after `k` rounds, where less than three seconds
  -- have gone by.
  pub ensure_daemon-answered :
      (c : Client) (n n0 n1 : N) (e : ClientError) (exe : Bytes) (k : ℕ)
      → ping net c n ≡ (some e, n0)
      → (net.getenv (codes "OPX_AUTOSTART") =ᵇ codes "0") ≡ false
      → daemon_program net ≡ some exe
      → net.start exe n0 ≡ (true, n1)
      → net.now (rounds c k n1) < net.now n1 + patience
      → (ping net c (rounds c k n1)).0 ≡ none
      → (ensure_daemon net c n).0 ≡ some none
  unfolding ensure_daemon after_ping launch after_start
  ensure_daemon-answered c n n0 n1 e exe k first auto program started soon answered =
      rw (first, auto, program, started)
        (wait-answered c (net.now n1 + patience) most_rounds k n1
          (ground (arith, rounds-now c k n1)) soon answered)
