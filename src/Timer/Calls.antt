-- ===== src/Timer/Calls.antt =====
-- lib/util/utilTimer.c: the timers by their keys, the calls of the library, and a tick.
-- The functions of the timers are an argument: what one asks of the library and whether it wants to be
-- called again, by the key of the timer and the tick.
use pi_frame.Prelude.{
  ℕ, zero, suc, ◌+◌, ◌-◌, ◌/◌, ◌%◌, Bool, true, false, ◌&&◌, Option, none, some, List, [], ◌∷◌,
  ◌++◌, Outcome, ret, fault, hang, ◌>>=◌, ◌==◌, ltb, if◌then◌else◌,
}
use pi_frame.Timer.{Pending, Wheel, add, begin_tick, end_tick, word, new_wheel}

-- `struct TimerList` in the heap; the part in the wheel is `Pending`.
pub record Timer : Type 0 where
  pub at : ℕ
  pub key : ℕ
  pub removed : Bool
  pub msec : ℕ
  pub param : Option ℕ
  pub owned : Bool

-- The static variables: the wheel, `jiffies`, `timerListsRoot`, `timerListKey`; the timers that are
-- allocated, the parameters that were given to `free`, and the keys of the timers whose functions were called.
pub record Timers : Type 0 where
  pub wheel : Wheel
  pub jiffies : ℕ
  pub root : List ℕ
  pub next_key : ℕ
  pub heap : List Timer
  pub next : ℕ
  pub freed : List ℕ
  pub called : List ℕ

unfoldable pub new_timers : Timers
new_timers = record {
  wheel = new_wheel;
  jiffies = 0;
  root = [];
  next_key = 84484116;
  heap = [];
  next = 0;
  freed = [];
  called = [];
}

unfoldable pub find_timer : ℕ → List Timer → Option Timer
find_timer p [] = none
find_timer p (t ∷ ts) = let rest = find_timer p ts in if t.at == p then some t else rest

unfoldable pub set_timer : Timer → List Timer → List Timer
set_timer t [] = []
set_timer t (u ∷ us) = (if u.at == t.at then t else u) ∷ set_timer t us

unfoldable pub erase_timer : ℕ → List Timer → List Timer
erase_timer p [] = []
erase_timer p (t ∷ ts) = let rest = erase_timer p ts in if t.at == p then ts else t ∷ rest

unfoldable pub unlink : ℕ → List ℕ → List ℕ
unlink p [] = []
unlink p (q ∷ qs) = let rest = unlink p qs in if q == p then qs else q ∷ rest

-- `calculateExpireTime`; a negative number of milliseconds is a large `uint32_t`.
abbrev pub ticks_of : ℕ → ℕ
ticks_of msec = if msec / 50 == 0 then 1 else msec / 50

abbrev pub expire_time : ℕ → ℕ → ℕ
expire_time jiffies msec = (jiffies + ticks_of (msec % word)) % word

-- `getTimerKey` leaves out the key 0.
abbrev pub key_after : ℕ → ℕ
key_after key = let next = (key + 1) % word in if next == 0 then 1 else next

-- `PFU_timerAdd`, with `allocTimerItem` and `add_timer`.
unfoldable pub timer_add : ℕ → Option ℕ → Bool → Timers → ℕ × Timers
timer_add msec param owned s = (
  s.next_key,
  record s {
    wheel = add (record { timer = s.next; expires = expire_time s.jiffies msec }) s.wheel;
    root = s.next ∷ s.root;
    next_key = key_after s.next_key;
    heap =
        record {
          at = s.next;
          key = s.next_key;
          removed = false;
          msec = msec;
          param = param;
          owned = owned;
        }
        ∷ s.heap;
    next = suc s.next;
  },
)

-- `timerGetTimerList`: the read of the key of a timer that was freed is a fault.
unfoldable pub with_key : Option Timer → (Timer → Outcome (Option Timer)) → Outcome (Option Timer)
with_key none f = fault
with_key (some t) f = f t

unfoldable pub get_timer : ℕ → List ℕ → List Timer → Outcome (Option Timer)
get_timer key [] heap = ret none
get_timer key (p ∷ ps) heap =
    let rest = get_timer key ps heap in
    with_key (find_timer p heap) (λ t. if t.key == key then ret (some t) else rest)

-- The write of `PFU_timerDelete` and of `PFU_timerSetMsec` to the timer with a key.
unfoldable pub write_timer : (Timer → Timer) → ℕ → Timers → Outcome Timers
write_timer f key s =
    if key == 0
    then ret s
    else get_timer key s.root s.heap >>= λ o. elim o [
      | none ↦ ret s
      | some t ↦ ret (record s { heap = set_timer (f t) s.heap })
    ]

unfoldable pub timer_delete : ℕ → Timers → Outcome Timers
timer_delete key s = write_timer (λ t. record t { removed = true }) key s

unfoldable pub timer_set_msec : ℕ → ℕ → Timers → Outcome Timers
timer_set_msec key msec s = write_timer (λ t. record t { msec = msec }) key s

-- What the function of a timer asks for while it runs.
pub data Request : Type 0 where
  adds : ℕ → Option ℕ → Bool → Request
  deletes : ℕ → Request
  sets : ℕ → ℕ → Request

abbrev pub Program : Type 0
Program = ℕ → ℕ → List Request × Bool

unfoldable pub request : Request → Timers → Outcome Timers
request (adds msec param owned) s = ret (timer_add msec param owned s).1
request (deletes key) s = timer_delete key s
request (sets key msec) s = timer_set_msec key msec s

unfoldable pub requests : List Request → Timers → Outcome Timers
requests [] s = ret s
requests (r ∷ rs) s = request r s >>= requests rs

-- `reuse_timer`: the entry of a timer that was removed stays in `timerListsRoot`.
abbrev pub freed_param : Timer → List ℕ
freed_param t = if t.owned then elim t.param [ none ↦ [] | some q ↦ q ∷ [] ] else []

unfoldable pub reuse : Timer → Bool → Timers → Timers
reuse t again s =
    if again
    then record s {
      wheel = add (record { timer = t.at; expires = expire_time s.jiffies t.msec }) s.wheel;
    }
    else record s {
      freed = s.freed ++ freed_param t;
      root = if t.removed then s.root else unlink t.at s.root;
      heap = erase_timer t.at s.heap;
    }

-- A timer that is due: its function is called unless it was removed. The function may change the timer, which
-- is read again after it.
unfoldable pub found : Option Timer → (Timer → Outcome Timers) → Outcome Timers
found none f = fault
found (some t) f = f t

unfoldable pub call_timer : Program → Pending → Timers → Outcome Timers
call_timer program x s = found (find_timer x.timer s.heap) (λ t.
    if t.removed
    then ret (reuse t false s)
    else requests (program t.key s.wheel.now).0 (record s { called = s.called ++ t.key ∷ [] })
      >>= λ r.
          found (find_timer x.timer r.heap) (λ u. ret (reuse u (program t.key s.wheel.now).1 r)))

-- The loop of `run_timer_list` over the list of the tick.
unfoldable pub set_due : List Pending → Wheel → Wheel
set_due l w = record w { vec = λ a b. if a == 0 && b == w.index 0 then l else w.vec a b }

unfoldable pub fire_first :
    Program → (Timers → Outcome Timers) → List Pending → Timers → Outcome Timers
fire_first program f [] s = ret s
fire_first program f (x ∷ xs) s =
    call_timer program x (record s { wheel = set_due xs s.wheel }) >>= f

unfoldable pub fire : Program → ℕ → Timers → Outcome Timers
fire program zero s = hang
fire program (suc left) s =
    fire_first program (fire program left) (s.wheel.vec 0 (s.wheel.index 0)) s

-- A tick of `run_timer_list`, and its loop up to `jiffies`.
unfoldable pub run_tick : Program → ℕ → Timers → Outcome Timers
run_tick program fuel s =
    fire program fuel (record s { wheel = record (begin_tick s.wheel) { running = some [] } })
    >>= λ r. ret (record r { wheel = end_tick r.wheel })

unfoldable pub run_list : Program → ℕ → ℕ → Timers → Outcome Timers
run_list program fuel zero s = hang
run_list program fuel (suc left) s =
    elim (ltb ((s.jiffies + word - s.wheel.now) % word) 2147483648) [
      | true ↦ run_tick program fuel s >>= run_list program fuel left
      | false ↦ ret s
    ]

-- `timer_process`.
unfoldable pub timer_process : Program → ℕ → ℕ → Timers → Outcome Timers
timer_process program fuel rounds s =
    run_list program fuel rounds (record s { jiffies = (s.jiffies + 1) % word })
