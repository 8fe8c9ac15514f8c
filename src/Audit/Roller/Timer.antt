-- ===== src/Audit/Roller/Timer.antt =====
-- internal/audit/roller.go: the timer of the roller. A timer that fires starts `scheduleFlush`, which
-- holds the lock for the flush only: it sets the next timer after it has given the lock back, and
-- `Close` can come in between.
pub mod Closing
use opx.Prelude.{
  ◌↔◌, ◌⊎◌, ℕ, zero, suc, ◌≡◌, refl, ap, ◌∙◌, true, Option, none, some, List, [], ◌∷◌, arith,
  if◌then◌else◌, ◌==◌, inl, inr, Bool-cases,
}
use opx.Prelude.Int.{pos, ltb_ℤ}
use opx.Audit.Roller.{RollerConfig}

-- The field of the roller, the timers that are set, the number of the next one, and the calls of
-- `scheduleFlush` that have still to set one.
pub record Timers : Type 0 where
  pub flush_timer : Option ℕ
  pub armed : List ℕ
  pub next : ℕ
  pub flushing : ℕ

-- `time.AfterFunc`
unfoldable pub after_func : Timers → Timers
after_func t = record t { flush_timer = some t.next; armed = t.next ∷ t.armed; next = suc t.next }

abbrev pub no_timers : Timers
no_timers = record { flush_timer = none; armed = []; next = 0; flushing = 0 }

-- The end of `NewRoller`.
unfoldable pub new_timers : RollerConfig → Timers
unfolding after_func
new_timers config = if ltb_ℤ (pos 0) config.flush_interval then after_func no_timers else no_timers

unfoldable pub without : ℕ → List ℕ → List ℕ
without i [] = []
without i (j ∷ js) = let rest = without i js in if i == j then rest else j ∷ rest

-- The timer that was set last fires.
fired : List ℕ → Timers → Timers
fired [] t = t
fired (i ∷ armed) t = record t { armed = armed; flushing = suc t.flushing }

rescheduled : RollerConfig → ℕ → Timers → Timers
unfolding after_func
rescheduled config zero t = t
rescheduled config (suc k) t =
    let t' = record t { flushing = k } in
    if ltb_ℤ (pos 0) config.flush_interval then after_func t' else t'

stopped : Option ℕ → Timers → Timers
unfolding without
stopped none t = t
stopped (some i) t = record t { flush_timer = none; armed = without i t.armed }

-- What happens to the timers: one fires, and `scheduleFlush` flushes; it sets the next one; the
-- roller is closed.
pub data Act : Type 0 where
  fires reschedules closes : Act

unfoldable pub step : RollerConfig → Act → Timers → Timers
unfolding fired rescheduled stopped
step config fires t = fired t.armed t
step config reschedules t = rescheduled config t.flushing t
step config closes t = stopped t.flush_timer t

unfoldable pub steps : RollerConfig → List Act → Timers → Timers
unfolding step
steps config [] t = t
steps config (a ∷ acts) t = steps config acts (step config a t)
