-- ===== src/Audit/Roller/Timer/Closing.antt =====
-- Whether a timer of the roller is left after it was closed.
use opx.Prelude.{
  ◌↔◌, ◌⊎◌, ℕ, zero, suc, ◌≡◌, refl, ap, ◌∙◌, true, Option, none, some, List, [], ◌∷◌, arith, inl,
  inr, Bool-cases,
}
use opx.Prelude.Int.{pos, ltb_ℤ}
use opx.Audit.Roller.{RollerConfig}
use opx.Audit.Roller.Timer.{
  Timers, after_func, new_timers, without, fired, rescheduled, stopped, Act, fires, reschedules,
  closes, step, steps,
}

-- No timer, one that is set and that the field holds, or one on its way.
data Shape (t : Timers) : Type 0 where
  quiet : t.armed ≡ [] → t.flushing ≡ 0 → Shape t
  waiting : (i : ℕ) → t.armed ≡ i ∷ [] → t.flush_timer ≡ some i → t.flushing ≡ 0 → Shape t
  busy : t.armed ≡ [] → t.flushing ≡ 1 → Shape t

without_self : (i : ℕ) → without i (i ∷ []) ≡ []
unfolding without
without_self i = ground arith

module _ (config : RollerConfig) where
  new-Shape : Shape (new_timers config)
  unfolding new_timers after_func
  new-Shape = elim (Bool-cases (ltb_ℤ (pos 0) config.flush_interval)) [
    | inl p ↦ rw p (waiting 0 refl refl refl)
    | inr p ↦ rw p (quiet refl refl)
  ]

  fired-Shape : (xs : List ℕ) (t : Timers) → t.armed ≡ xs → Shape t → Shape (fired xs t)
  unfolding fired
  fired-Shape [] t e s = s
  fired-Shape (x ∷ xs) t e (quiet h k) = absurd (ground arith)
  fired-Shape (x ∷ xs) t e (waiting i h f k) = busy (ground arith) (ap suc k)
  fired-Shape (x ∷ xs) t e (busy h k) = absurd (ground arith)

  rescheduled-Shape :
      (n : ℕ) (t : Timers) → t.flushing ≡ n → Shape t → Shape (rescheduled config n t)
  unfolding rescheduled after_func
  rescheduled-Shape zero t e s = s
  rescheduled-Shape (suc n) t e (quiet h k) = absurd (ground arith)
  rescheduled-Shape (suc n) t e (waiting i h f k) = absurd (ground arith)
  rescheduled-Shape (suc n) t e (busy h k) =
      let last : n ≡ 0 = ground arith in
      elim (Bool-cases (ltb_ℤ (pos 0) config.flush_interval)) [
        | inl p ↦ rw p (waiting t.next (ap (◌∷◌ t.next) h) refl last)
        | inr p ↦ rw p (quiet h last)
      ]

  stopped-Shape : (o : Option ℕ) (t : Timers) → t.flush_timer ≡ o → Shape t → Shape (stopped o t)
  unfolding stopped without
  stopped-Shape none t e s = s
  stopped-Shape (some j) t e (quiet h k) = quiet (ap (without j) h) k
  stopped-Shape (some j) t e (waiting i h f k) =
      let same : j ≡ i = ground arith in quiet (rw (h, same) (without_self i)) k
  stopped-Shape (some j) t e (busy h k) = busy (ap (without j) h) k

  step-Shape : (a : Act) (t : Timers) → Shape t → Shape (step config a t)
  unfolding step
  step-Shape fires t s = fired-Shape t.armed t refl s
  step-Shape reschedules t s = rescheduled-Shape t.flushing t refl s
  step-Shape closes t s = stopped-Shape t.flush_timer t refl s

  steps-Shape : (acts : List Act) (t : Timers) → Shape t → Shape (steps config acts t)
  unfolding steps
  steps-Shape [] t s = s
  steps-Shape (a ∷ acts) t s = steps-Shape acts (step config a t) (step-Shape a t s)

  abbrev IsQuiet : Timers → Type 0
  IsQuiet t = (t.armed ≡ []) × (t.flushing ≡ 0)

  fired-IsQuiet : (xs : List ℕ) (t : Timers) → t.armed ≡ xs → IsQuiet t → IsQuiet (fired xs t)
  unfolding fired
  fired-IsQuiet [] t e q = q
  fired-IsQuiet (x ∷ xs) t e q = absurd (ground arith)

  rescheduled-IsQuiet :
      (n : ℕ) (t : Timers) → t.flushing ≡ n → IsQuiet t → IsQuiet (rescheduled config n t)
  unfolding rescheduled
  rescheduled-IsQuiet zero t e q = q
  rescheduled-IsQuiet (suc n) t e q = absurd (ground arith)

  stopped-IsQuiet : (o : Option ℕ) (t : Timers) → IsQuiet t → IsQuiet (stopped o t)
  unfolding stopped without
  stopped-IsQuiet none t q = q
  stopped-IsQuiet (some j) t (h, k) = (ap (without j) h, k)

  steps-IsQuiet : (acts : List Act) (t : Timers) → IsQuiet t → IsQuiet (steps config acts t)
  unfolding steps step
  steps-IsQuiet [] t q = q
  steps-IsQuiet (fires ∷ acts) t q = steps-IsQuiet acts _ (fired-IsQuiet t.armed t refl q)
  steps-IsQuiet (reschedules ∷ acts) t q =
      steps-IsQuiet acts _ (rescheduled-IsQuiet t.flushing t refl q)
  steps-IsQuiet (closes ∷ acts) t q = steps-IsQuiet acts _ (stopped-IsQuiet t.flush_timer t q)

  closed-IsQuiet :
      (o : Option ℕ) (t : Timers)
      → t.flush_timer ≡ o
      → t.flushing ≡ 0
      → Shape t
      → IsQuiet (stopped o t)
  unfolding stopped
  closed-IsQuiet none t e z (quiet h k) = (h, k)
  closed-IsQuiet none t e z (waiting i h f k) = absurd (ground arith)
  closed-IsQuiet none t e z (busy h k) = absurd (ground arith)
  closed-IsQuiet (some j) t e z (quiet h k) = (ap (without j) h ∙ refl, k)
  closed-IsQuiet (some j) t e z (waiting i h f k) =
      let same : j ≡ i = ground arith in (rw (h, same) (without_self i), k)
  closed-IsQuiet (some j) t e z (busy h k) = absurd (ground arith)

  -- A roller that is closed while no `scheduleFlush` has still to set its next timer has no timer from then on,
  -- whatever is called afterwards.
  pub closes-IsQuiet :
      (acts later : List Act)
      → (steps config acts (new_timers config)).flushing ≡ 0
      → let t = steps config later (step config closes (steps config acts (new_timers config))) in
        (t.armed ≡ []) × (t.flushing ≡ 0)
  unfolding step
  closes-IsQuiet acts later z =
      let t = steps config acts (new_timers config) in
      steps-IsQuiet later (stopped t.flush_timer t)
        (closed-IsQuiet t.flush_timer t refl z (steps-Shape acts (new_timers config) new-Shape))

  rearmed :
      (k : ℕ) (t : Timers)
      → t.armed ≡ []
      → k ≡ 1
      → ltb_ℤ (pos 0) config.flush_interval ≡ true
      → (rescheduled config k t).armed ≡ t.next ∷ []
  unfolding rescheduled after_func
  rearmed zero t h e p = absurd (ground arith)
  rearmed (suc k) t h e p = rw p (ap (◌∷◌ t.next) h)

  busy_rearms :
      (o : Option ℕ) (t : Timers)
      → t.flushing ≡ 1
      → ltb_ℤ (pos 0) config.flush_interval ≡ true
      → Shape t
      → (rescheduled config (stopped o t).flushing (stopped o t)).armed ≡ t.next ∷ []
  unfolding stopped without
  busy_rearms o t e p (quiet h k) = absurd (ground arith)
  busy_rearms o t e p (waiting i h f k) = absurd (ground arith)
  busy_rearms none t e p (busy h k) = rearmed t.flushing t h k p
  busy_rearms (some j) t e p (busy h k) = rearmed t.flushing _ (ap (without j) h) k p

  -- A roller that is closed after a timer has fired, and before `scheduleFlush` has set the next one, has a timer
  -- once that is done, if there is an interval.
  pub closes_while_flushing :
      (acts : List Act)
      → (steps config acts (new_timers config)).flushing ≡ 1
      → ltb_ℤ (pos 0) config.flush_interval ≡ true
      → let t = steps config acts (new_timers config) in
        (steps config (closes ∷ reschedules ∷ []) t).armed ≡ t.next ∷ []
  unfolding step steps
  closes_while_flushing acts e p =
      let t = steps config acts (new_timers config) in
      busy_rearms t.flush_timer t e p (steps-Shape acts (new_timers config) new-Shape)

  still_flushing : (t : Timers) → Shape t → (t.flushing ≡ 0) ⊎ (t.flushing ≡ 1)
  still_flushing t (quiet h k) = inl k
  still_flushing t (waiting i h f k) = inl k
  still_flushing t (busy h k) = inr k

  -- A roller with an interval that is closed, at any time, has no timer after the calls that are on their way exactly
  -- when no timer had fired whose `scheduleFlush` had still to set the next one.
  pub closes_iff :
      (acts : List Act)
      → ltb_ℤ (pos 0) config.flush_interval ≡ true
      → let t = steps config acts (new_timers config) in
        ((steps config (closes ∷ reschedules ∷ []) t).armed ≡ []) ↔ (t.flushing ≡ 0)
  unfolding steps
  closes_iff acts p =
      let t = steps config acts (new_timers config) in
      (
        λ gone. elim (still_flushing t (steps-Shape acts (new_timers config) new-Shape)) [
          | inl none_left ↦ none_left
          | inr one ↦
              let there = closes_while_flushing acts one p in absurd (ground (arith, there, gone))
        ],
        λ z. (closes-IsQuiet acts (reschedules ∷ []) z).0,
      )
