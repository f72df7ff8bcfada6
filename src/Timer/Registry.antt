-- ===== src/Timer/Registry.antt =====
-- lib/util/utilTimer.c: a timer that is added and deleted before it is due.
use pi_frame.Prelude.{ℕ, ◌++◌, Bool, false, [], Option, some}
use pi_frame.Timer.{advance}
use pi_frame.Timer.Held.{Held}
use pi_frame.Timer.Calls.{Timer, Timers, erase_timer, freed_param, set_due}

-- The timer as it is added, and with the mark of `PFU_timerDelete`.
abbrev added : ℕ → Option ℕ → Bool → Timers → Timer
added msec param owned s = record {
  at = s.next;
  key = s.next_key;
  removed = false;
  msec = msec;
  param = param;
  owned = owned;
}

-- A timer that was removed, alone in the list of the tick.
abbrev after_tick : Timer → Timers → Timers
after_tick t s = record s {
  wheel = advance (set_due [] (record (s.wheel) { running = some [] }));
  freed = s.freed ++ freed_param t;
  heap = erase_timer t.at s.heap;
}
