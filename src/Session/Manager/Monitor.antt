-- ===== src/Session/Manager/Monitor.antt =====
-- internal/session/manager.go: `Start`, `Stop` and the loop of `monitor`, with their channels. What a
-- check does to the session is in Session/Manager; here a check of the ticker changes nothing. Two
-- channels are ever closed: `stopCh` and `doneCh`; none stands for the panic of closing one twice.
pub mod Stopping
use opx.Prelude.{
  ℕ, zero, suc, ◌+◌, ◌≡◌, refl, Bool, true, false, ◌||◌, Option, none, some, List, [], ◌∷◌, arith,
}

pub record Channels : Type 0 where
  pub stop_closed : Bool
  pub done_closed : Bool
  pub context_done : Bool
  pub monitors : ℕ  -- the goroutines that run `monitor`
  pub stopping : ℕ  -- the calls of `Stop` that wait for `doneCh`
  pub stopped : ℕ  -- the calls of `Stop` that have returned

abbrev pub new_channels : Channels
new_channels = record {
  stop_closed = false;
  done_closed = false;
  context_done = false;
  monitors = 0;
  stopping = 0;
  stopped = 0;
}

-- Whose turn it is: the ticker of a monitor; a monitor that looks for the end; the context; a call of
-- `Stop` that waits. A turn that is not possible changes nothing.
pub data Turn : Type 0 where
  ticks ends cancels receives : Turn

-- `close(m.doneCh)`
close_done : Bool → Channels → Option Channels
close_done true c = none
close_done false c = some (record c { done_closed = true })

-- `Start`, for the configuration's `EnableSessionLock`.
unfoldable pub start : Bool → Channels → Option Channels
unfolding close_done
start true c = some (record c { monitors = suc c.monitors })
start false c = close_done c.done_closed c

close_stop : Bool → Channels → Option Channels
close_stop true c = none
close_stop false c = some (record c { stop_closed = true; stopping = suc c.stopping })

-- `Stop`, up to its wait.
unfoldable pub stop : Channels → Option Channels
unfolding close_stop
stop c = close_stop c.stop_closed c

-- The deferred `close(m.doneCh)` of a monitor that returns.
monitor_ends : ℕ → Bool → Channels → Option Channels
unfolding close_done
monitor_ends zero over c = some c
monitor_ends (suc n) false c = some c
monitor_ends (suc n) true c = close_done c.done_closed (record c { monitors = n })

stop_receives : ℕ → Bool → Channels → Option Channels
stop_receives zero done c = some c
stop_receives (suc n) false c = some c
stop_receives (suc n) true c = some (record c { stopping = n; stopped = suc c.stopped })

unfoldable pub turn : Turn → Channels → Option Channels
unfolding monitor_ends stop_receives
turn ticks c = some c
turn ends c = monitor_ends c.monitors (c.stop_closed || c.context_done) c
turn cancels c = some (record c { context_done = true })
turn receives c = stop_receives c.stopping c.done_closed c

unfoldable pub turns : List Turn → Option Channels → Option Channels
unfolding turn
turns ts none = none
turns [] (some c) = some c
turns (t ∷ ts) (some c) = turns ts (turn t c)

unfoldable pub then_stop : Option Channels → Option Channels
unfolding stop
then_stop none = none
then_stop (some c) = stop c
