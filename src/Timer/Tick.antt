-- ===== src/Timer/Tick.antt =====
-- lib/util/utilTimer.c: `run_timer_list` at a tick is a tick of the wheel.
use pi_frame.Prelude.{
  ℕ, suc, ◌+◌, ◌-◌, ◌%◌, ◌≤◌, ◌<◌, ◌≡◌, refl, sym, ap, ◌∙◌, subst, true, false, List, [], ◌++◌,
  some, none, ◌^◌, arith, All, All-map, ret, ◌>>=◌, map, ltb,
}
use pi_frame.Timer.{Pending, Wheel, begin_tick, end_tick, clear, place}
use pi_frame.Timer.Held.{Held, Soon}
use pi_frame.Timer.Begin.{begin_tick-Turned}
use pi_frame.Timer.Line.{due, pass, pass-Held}
use pi_frame.Timer.Requests.{Fresh, Set}
use pi_frame.Timer.Calls.{Timers, Program, ticks_of, set_due, run_tick, run_list, timer_process}
use pi_frame.Timer.Fire.{Periodic, Live, Requeued, key, rounds, fire_lem, set_due-same}

place_five : (v : Wheel) (e : ℕ) → (place v e).0 < 5
unfolding place
place_five v e = ground arith

ticks_bound : (msec : ℕ) → msec < 4294967296 → (1 ≤ ticks_of msec) × (ticks_of msec ≤ 85899345)
ticks_bound msec h = ground arith

Set-Soon : (now : ℕ) (x : Pending) → now + 85899346 < 4294967296 → Set now x → Soon 5 (now + 1) x
Set-Soon now x small (msec, at) =
    let (least, most) = ticks_bound (msec % 4294967296) (omega arith) in
    (omega (arith, at), omega (arith, at), omega (arith, at), λ v e. place_five v x.expires)

-- A tick of timers whose functions want to be called again, and may add timers, when the count of the
-- ticks has come to it: it calls the functions of the timers that are due, in the order of their list,
-- and is a tick of the wheel at which timers are put back, or added, that are due later. A round of
-- fuel for each timer and one more is enough.
pub run_tick-pass :
    (program : Program) (extra : ℕ) (s : Timers)
    → Periodic program
    → Held 1 s.wheel
    → s.wheel.running ≡ none
    → All (Live s) (due (begin_tick s.wheel))
    → Fresh s
    → s.jiffies ≡ s.wheel.now
    → s.wheel.now + 85899346 < 2 ^ 32
    → (s' : Timers) × (queued : List Pending) × (run_tick program
          (rounds (suc extra) (due (begin_tick s.wheel)))
          s
        ≡ ret s')
      × (s'.wheel ≡ pass queued s.wheel)
      × All (Soon 5 (s.wheel.now + 1)) queued
      × Requeued program s.wheel.now s (due (begin_tick s.wheel)) queued
      × (s'.called ≡ s.called ++ map (key s) (due (begin_tick s.wheel)))
      × (s'.jiffies ≡ s.jiffies)
unfolding run_tick set_due clear
run_tick-pass program extra s periodic held idle live fresh count small =
    let w = begin_tick s.wheel in
    let s₀ : Timers = record s { wheel = record w { running = some [] } } in
    let (r, new, done, fired) =
      fire_lem program (due w) extra w [] s₀ periodic
        (sym (ap (λ (v : Wheel). record v { running = some [] }) (set_due-same w))) live fresh in
    (
      record r { wheel = end_tick r.wheel },
      new,
      ap (λ o. o >>= λ (t : Timers). ret (record t { wheel = end_tick t.wheel })) done,
      ap end_tick fired.wheel,
      All-map (Set s.jiffies) (Soon 5 (s.wheel.now + 1)) new
          (λ x set. Set-Soon s.wheel.now x small (subst (λ j. Set j x) count set)) fired.set,
      subst (λ n. Requeued program n s (due w) new) (begin_tick-Turned s.wheel held idle).same_now
          fired.requeued,
      fired.called,
      fired.same_jiffies,
    )

pub run_list-go :
    (program : Program) (fuel left : ℕ) (s : Timers)
    → ltb ((s.jiffies + 4294967296 - s.wheel.now) % 4294967296) 2147483648 ≡ true
    → run_list program fuel (suc left) s ≡ (run_tick program fuel s >>= run_list program fuel left)
unfolding run_list
run_list-go program fuel left s go = rw (go, run_list) refl

pub run_list-stop :
    (program : Program) (fuel left : ℕ) (s : Timers)
    → ltb ((s.jiffies + 4294967296 - s.wheel.now) % 4294967296) 2147483648 ≡ false
    → run_list program fuel (suc left) s ≡ ret s
unfolding run_list
run_list-stop program fuel left s stop = rw (stop, run_list) refl

-- `timer_process`, when the wheel is one tick ahead of the count, as it is after each call: it runs one
-- tick and stops, one ahead again. The tick calls the functions of the timers that are due, in the order
-- of their list, and is a tick of the wheel at which the timers `queued` come in: each timer that was due
-- is put back once, set for its own number of milliseconds from this tick, behind as many new timers
-- as its function has asked for, and all of them are due later. The wheel is well formed and no timers run; the
-- timers that are due are in the heap and not removed; the functions always want to be called again, and add
-- timers at most; the tick is so far below 2 ^ 32 that no time wraps. A round of fuel for each timer and
-- one more is enough, and two for the loop.
pub timer_process-pass :
    (program : Program) (extra more : ℕ) (s : Timers)
    → Periodic program
    → Held 1 s.wheel
    → s.wheel.running ≡ none
    → All (Live s) (due (begin_tick s.wheel))
    → Fresh s
    → s.jiffies + 1 ≡ s.wheel.now
    → s.wheel.now + 85899346 < 2 ^ 32
    → (s' : Timers) × (queued : List Pending) × (timer_process program
          (rounds (suc extra) (due (begin_tick s.wheel)))
          (suc (suc more))
          s
        ≡ ret s')
      × (s'.wheel ≡ pass queued s.wheel)
      × All (Soon 5 (s.wheel.now + 1)) queued
      × Requeued program s.wheel.now
          (record s { jiffies = s.wheel.now })
          (due (begin_tick s.wheel))
          queued
      × (s'.called ≡ s.called ++ map (key s) (due (begin_tick s.wheel)))
      × (s'.jiffies + 1 ≡ s'.wheel.now)
unfolding timer_process
timer_process-pass program extra more s periodic held idle live fresh count small =
    let fuel = rounds (suc extra) (due (begin_tick s.wheel)) in
    let s₀ : Timers = record s { jiffies = (s.jiffies + 1) % 4294967296 } in
    let now : (s.jiffies + 1) % 4294967296 ≡ s.wheel.now = omega arith in
    let (s', queued, done, wheel, soon, again, called, jiffies) =
      run_tick-pass program extra s₀ periodic held idle live fresh now small in
    let next = pass-Held queued s.wheel held idle (omega arith) soon in
    let ahead : s'.wheel.now ≡ s.wheel.now + 1 = ap (λ (w : Wheel). w.now) wheel ∙ next.2 in
    let go : ltb ((s₀.jiffies + 4294967296 - s.wheel.now) % 4294967296) 2147483648 ≡ true =
      ground (arith, now) in
    let stop : ltb ((s'.jiffies + 4294967296 - s'.wheel.now) % 4294967296) 2147483648 ≡ false =
      ground (arith, ahead, jiffies, now) in
    (
      s',
      queued,
      run_list-go program fuel (suc more) s₀ go
          ∙ ap (λ o. o >>= run_list program fuel (suc more)) done
          ∙ run_list-stop program fuel more s' stop,
      wheel,
      soon,
      subst
          (λ j.
            Requeued program s.wheel.now (record s { jiffies = j }) (due (begin_tick s.wheel))
              queued)
          now again,
      called,
      omega (arith, jiffies, ahead, now),
    )
