-- ===== src/Timer/Tests.antt =====
-- Runs of the timers.
use pi_frame.Prelude.{
  ◌+◌, ◌≡◌, refl, true, false, List, [], ◌∷◌, ◌++◌, none, arith, All, ret, map, inl,
}
use pi_frame.Timer.{
  Pending, Wheel, new_wheel, add, add_all, place, put, begin_tick, end_tick, cascades, cascade,
  turn, clear, advance,
}
use pi_frame.Timer.Among.{Among}
use pi_frame.Timer.Held.{Held, Soon, add-Grown}
use pi_frame.Timer.Line.{due, pass, passes, pass-Held, passes-due, new_wheel-Held}
use pi_frame.Timer.Calls.{Timer, Timers, Program, new_timers, timer_process, find_timer}
use pi_frame.Timer.Fire.{Requeued, key, rounds}
use pi_frame.Timer.Tick.{timer_process-pass}

abbrev soon_timer : Pending
soon_timer = record { timer = 0; expires = 2 }

abbrev due_timer : Pending
due_timer = record { timer = 0; expires = 1 }

timers-Soon : Soon 5 0 soon_timer × Soon 5 1 due_timer
unfolding place
timers-Soon = (
  (omega arith, omega arith, omega arith, λ v e. ground arith),
  (omega arith, omega arith, omega arith, λ v e. ground arith),
)

abbrev filled : Wheel
filled = add soon_timer new_wheel

filled-Held : Held 1 filled
unfolding new_wheel
filled-Held = (add-Grown 1 5 new_wheel soon_timer timers-Soon.0 new_wheel-Held refl).0.held

passes-due_example :
    Among soon_timer (due (begin_tick (passes ([] ∷ [] ∷ []) filled)))
    × ((y : Pending) → Among y (due (begin_tick (passes ([] ∷ [] ∷ []) filled))) → y.expires ≡ 2)
unfolding new_wheel add put place
passes-due_example =
    passes-due ([] ∷ [] ∷ []) filled soon_timer filled-Held refl (tt, (tt, tt)) (0, 2, inl refl)
      refl (omega arith)

-- Every timer wants to be called again.
abbrev again : Program
again k tick = ([], true)

abbrev periodic_timer : Timer
periodic_timer = record {
  at = 0;
  key = 7;
  removed = false;
  msec = 500;
  param = none;
  owned = false;
}

abbrev one_timer : Timers
one_timer = record {
  wheel = add due_timer (pass [] new_wheel);
  jiffies = 0;
  root = 0 ∷ [];
  next_key = 8;
  heap = periodic_timer ∷ [];
  next = 1;
  freed = [];
  called = [];
}

-- The wheel is at the tick 1.
abbrev first_wheel : Wheel
first_wheel = pass [] new_wheel

first_wheel-Held : Held 1 first_wheel
unfolding new_wheel
first_wheel-Held = (pass-Held [] new_wheel new_wheel-Held refl (omega arith) tt).0

one_timer-Held : Held 1 (add due_timer first_wheel)
unfolding begin_tick cascades cascade turn clear add_all end_tick advance new_wheel
one_timer-Held = (add-Grown 1 5 first_wheel due_timer timers-Soon.1 first_wheel-Held refl).0.held

timer_process-pass_example :
    (s' : Timers) × (queued : List Pending) × (timer_process again
        (rounds 1 (due (begin_tick one_timer.wheel)))
        2
        one_timer
      ≡ ret s')
    × (s'.wheel ≡ pass queued one_timer.wheel)
    × All (Soon 5 (one_timer.wheel.now + 1)) queued
    × Requeued again 1 (record one_timer { jiffies = 1 }) (due (begin_tick one_timer.wheel)) queued
    × (s'.called ≡ [] ++ map (key one_timer) (due (begin_tick one_timer.wheel)))
    × (s'.jiffies + 1 ≡ s'.wheel.now)
unfolding begin_tick cascades cascade turn clear add_all add put place new_wheel find_timer end_tick
    advance
timer_process-pass_example =
    timer_process-pass again 0 0 one_timer (λ k tick. (tt, refl)) one_timer-Held refl
      ((periodic_timer, refl, refl), tt) (omega arith, tt) refl (omega arith)

-- No timers, at the tick 1.
abbrev at_one : Timers
at_one = record new_timers { wheel = first_wheel }
