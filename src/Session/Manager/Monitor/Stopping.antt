-- ===== src/Session/Manager/Monitor/Stopping.antt =====
-- That `Stop` of internal/session/manager.go returns, after a `Start`, and only then.
use opx.Prelude.{
  ℕ, zero, suc, ◌+◌, ◌≡◌, refl, Bool, true, false, ◌||◌, Option, none, some, List, [], ◌∷◌, arith,
}
use opx.Session.Manager.Monitor.{
  Channels, new_channels, Turn, ticks, ends, cancels, receives, close_done, start, close_stop, stop,
  monitor_ends, stop_receives, turn, turns, then_stop,
}

-- After one `Start`: the monitor runs and `doneCh` is open, or it has ended and closed it.
abbrev Alone : ℕ → Bool → Type 0
Alone (suc zero) false = Unit {0}
Alone zero true = Unit {0}
Alone _ _ = ⊥

-- Before and after the call of `Stop`.
abbrev Before : Option Channels → Type 0
Before none = ⊥
Before (some c) =
    Alone c.monitors c.done_closed × (c.stop_closed ≡ false) × (c.stopping ≡ 0) × (c.stopped ≡ 0)

abbrev After : Option Channels → Type 0
After none = ⊥
After (some c) =
    Alone c.monitors c.done_closed × (c.stop_closed ≡ true) × (c.stopping + c.stopped ≡ 1)

start-Before : (enabled : Bool) → Before (start enabled new_channels)
unfolding start
start-Before true = (tt, refl, refl, refl)
start-Before false = (tt, refl, refl, refl)

-- A state by its fields.
abbrev channels : Bool → Bool → Bool → ℕ → ℕ → ℕ → Channels
channels stopped_at done over m waiting gone = record {
  stop_closed = stopped_at;
  done_closed = done;
  context_done = over;
  monitors = m;
  stopping = waiting;
  stopped = gone;
}

ends-Before :
    (a d x : Bool) (m w g : ℕ)
    → Before (some (channels a d x m w g))
    → Before (monitor_ends m (a || x) (channels a d x m w g))
unfolding monitor_ends close_done
ends-Before a true x zero w g h = h
ends-Before a false x zero w g h = absurd h.0
ends-Before a true x (suc zero) w g h = absurd h.0
ends-Before true false x (suc zero) w g h = absurd (ground (arith, h.1))
ends-Before false false true (suc zero) w g h = (tt, refl, h.2, h.3)
ends-Before false false false (suc zero) w g h = h
ends-Before a d x (suc (suc m)) w g h = absurd h.0

receives-Before :
    (a d x : Bool) (m w g : ℕ)
    → Before (some (channels a d x m w g))
    → Before (stop_receives w d (channels a d x m w g))
unfolding stop_receives
receives-Before a d x m zero g h = h
receives-Before a d x m (suc w) g h = absurd (ground (arith, h.2))

turn-Before : (t : Turn) (c : Channels) → Before (some c) → Before (turn t c)
unfolding turn
turn-Before ticks c h = h
turn-Before cancels c h = h
turn-Before ends c h =
    ends-Before c.stop_closed c.done_closed c.context_done c.monitors c.stopping c.stopped h
turn-Before receives c h =
    receives-Before c.stop_closed c.done_closed c.context_done c.monitors c.stopping c.stopped h

ends-After :
    (a d x : Bool) (m w g : ℕ)
    → After (some (channels a d x m w g))
    → After (monitor_ends m (a || x) (channels a d x m w g))
unfolding monitor_ends close_done
ends-After a true x zero w g h = h
ends-After a false x zero w g h = absurd h.0
ends-After a true x (suc zero) w g h = absurd h.0
ends-After true false x (suc zero) w g h = (tt, refl, h.2)
ends-After false false x (suc zero) w g h = absurd (ground (arith, h.1))
ends-After a d x (suc (suc m)) w g h = absurd h.0

receives-After :
    (a d x : Bool) (m w g : ℕ)
    → After (some (channels a d x m w g))
    → After (stop_receives w d (channels a d x m w g))
unfolding stop_receives
receives-After a d x m zero g h = h
receives-After a false x m (suc w) g h = h
receives-After a true x m (suc w) g h = (h.0, h.1, omega (arith, h.2))

turn-After : (t : Turn) (c : Channels) → After (some c) → After (turn t c)
unfolding turn
turn-After ticks c h = h
turn-After cancels c h = h
turn-After ends c h =
    ends-After c.stop_closed c.done_closed c.context_done c.monitors c.stopping c.stopped h
turn-After receives c h =
    receives-After c.stop_closed c.done_closed c.context_done c.monitors c.stopping c.stopped h

-- What every turn keeps holds after all of them.
turns-keeps :
    (P : Option Channels → Type 0)
    → ((t : Turn) (c : Channels) → P (some c) → P (turn t c))
    → (ts : List Turn) (o : Option Channels) → P o
    → P (turns ts o)
unfolding turns
turns-keeps P keep ts none h = h
turns-keeps P keep [] (some c) h = h
turns-keeps P keep (t ∷ ts) (some c) h = turns-keeps P keep ts (turn t c) (keep t c h)

stop-After : (o : Option Channels) → Before o → After (then_stop o)
unfolding then_stop stop
stop-After none h = absurd h
stop-After (some c) h = closing c.stop_closed h.1
  where
    closing : (a : Bool) → a ≡ false → After (close_stop a c)
    closing true e = absurd (ground arith)
    closing false e = (h.0, refl, omega (arith, h.2))

-- `Stop` has returned, and the monitor has ended.
abbrev pub HasStopped : Option Channels → Type 0
HasStopped none = ⊥
HasStopped (some c) = (c.stopped ≡ 1) × (c.stopping ≡ 0) × (c.monitors ≡ 0)

last-HasStopped :
    (a d x : Bool) (m w g : ℕ)
    → After (some (channels a d x m w g))
    → HasStopped (turns (ends ∷ receives ∷ []) (some (channels a d x m w g)))
unfolding turns turn monitor_ends close_done stop_receives
last-HasStopped a true x zero zero g h = (omega (arith, h.2), refl, refl)
last-HasStopped a true x zero (suc w) g h = (omega (arith, h.2), omega (arith, h.2), refl)
last-HasStopped a false x zero w g h = absurd h.0
last-HasStopped a true x (suc zero) w g h = absurd h.0
last-HasStopped true false x (suc zero) zero g h = (omega (arith, h.2), refl, refl)
last-HasStopped true false x (suc zero) (suc w) g h = (omega (arith, h.2), omega (arith, h.2), refl)
last-HasStopped false false x (suc zero) w g h = absurd (ground (arith, h.1))
last-HasStopped a d x (suc (suc m)) w g h = absurd h.0

After-HasStopped : (o : Option Channels) → After o → HasStopped (turns (ends ∷ receives ∷ []) o)
After-HasStopped none h = absurd h
After-HasStopped (some c) h =
    last-HasStopped c.stop_closed c.done_closed c.context_done c.monitors c.stopping c.stopped h

-- After one `Start` of a new manager and one `Stop`, with the session lock enabled or not, and whatever
-- turns are taken in between and after them: as soon as the monitor and then `Stop` get their turns,
-- `Stop` has returned and the monitor has ended, and no channel is closed twice.
pub stop-HasStopped :
    (enabled : Bool) (before after : List Turn)
    → HasStopped (
        turns
          (ends ∷ receives ∷ [])
          (turns after (then_stop (turns before (start enabled new_channels)))))
stop-HasStopped enabled before after =
    let begun =
      turns-keeps Before turn-Before before (start enabled new_channels) (start-Before enabled) in
    let stopping = stop-After (turns before (start enabled new_channels)) begun in
    After-HasStopped _ (turns-keeps After turn-After after _ stopping)

-- No call of `Stop` has returned.
abbrev pub Waits : Option Channels → Type 0
Waits none = ⊥
Waits (some c) = (c.monitors ≡ 0) × (c.done_closed ≡ false) × (c.stopped ≡ 0)

ends-Waits :
    (a d x : Bool) (m w g : ℕ)
    → Waits (some (channels a d x m w g))
    → Waits (monitor_ends m (a || x) (channels a d x m w g))
unfolding monitor_ends
ends-Waits a d x zero w g h = h
ends-Waits a d x (suc m) w g h = absurd (ground (arith, h.0))

receives-Waits :
    (a d x : Bool) (m w g : ℕ)
    → Waits (some (channels a d x m w g))
    → Waits (stop_receives w d (channels a d x m w g))
unfolding stop_receives
receives-Waits a d x m zero g h = h
receives-Waits a false x m (suc w) g h = h
receives-Waits a true x m (suc w) g h = absurd (ground (arith, h.1))

turn-Waits : (t : Turn) (c : Channels) → Waits (some c) → Waits (turn t c)
unfolding turn
turn-Waits ticks c h = h
turn-Waits cancels c h = h
turn-Waits ends c h =
    ends-Waits c.stop_closed c.done_closed c.context_done c.monitors c.stopping c.stopped h
turn-Waits receives c h =
    receives-Waits c.stop_closed c.done_closed c.context_done c.monitors c.stopping c.stopped h

-- A `Stop` of a new manager without a `Start` never returns, whatever turns are taken.
pub stop-Waits : (ts : List Turn) → Waits (turns ts (then_stop (some new_channels)))
unfolding then_stop stop
stop-Waits ts = turns-keeps Waits turn-Waits ts _ (refl, refl, refl)
